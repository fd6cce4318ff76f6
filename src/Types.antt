-- ===== src/Types.antt =====
-- internal/types/types.go: tasks, their priority and status, and what nodes report.
-- `Priority` and `Status` are Go integers, so values outside the named constants exist. An instant
-- is the number of nanoseconds since a fixed start; a payload is its bytes.
pub mod Names
pub mod Readiness
mod Tests
use distributed_grpc_task_ma.Prelude.{
  ℕ, String, Bool, false, ◌&&◌, List, [], Option, none, some, ℤ, pos, sub_ℕ, ltb_ℤ, eqb_ℤ, length,
  ◌==◌, str_eq, if◌then◌else◌,
}

abbrev pub Time : Type 0
Time = ℕ

-- nanoseconds, signed
abbrev pub Duration : Type 0
Duration = ℤ

abbrev pub Priority : Type 0
Priority = ℤ

abbrev pub priority_low : Priority
priority_low = pos 0

abbrev pub priority_medium : Priority
priority_medium = pos 1

abbrev pub priority_high : Priority
priority_high = pos 2

unfoldable pub priority_string : Priority → String
priority_string p =
    if eqb_ℤ p priority_high
    then "high"
    else if eqb_ℤ p priority_medium
    then "medium"
    else if eqb_ℤ p priority_low
    then "low"
    else "unknown"

unfoldable pub parse_priority : String → Priority
parse_priority s =
    if str_eq s "high"
    then priority_high
    else if str_eq s "medium"
    then priority_medium
    else if str_eq s "low"
    then priority_low
    else priority_low

abbrev pub Status : Type 0
Status = ℤ

abbrev pub status_pending : Status
status_pending = pos 0

abbrev pub status_running : Status
status_running = pos 1

abbrev pub status_completed : Status
status_completed = pos 2

abbrev pub status_failed : Status
status_failed = pos 3

abbrev pub status_timeout : Status
status_timeout = pos 4

unfoldable pub status_string : Status → String
status_string s =
    if eqb_ℤ s status_pending
    then "pending"
    else if eqb_ℤ s status_running
    then "running"
    else if eqb_ℤ s status_completed
    then "completed"
    else if eqb_ℤ s status_failed
    then "failed"
    else if eqb_ℤ s status_timeout
    then "timeout"
    else "unknown"

unfoldable pub parse_status : String → Status
parse_status s =
    if str_eq s "pending"
    then status_pending
    else if str_eq s "running"
    then status_running
    else if str_eq s "completed"
    then status_completed
    else if str_eq s "failed"
    then status_failed
    else if str_eq s "timeout"
    then status_timeout
    else status_pending

pub record Task : Type 0 where
  pub id : String
  pub priority : Priority
  pub payload : List ℕ
  pub created_at : Time
  pub status : Status
  pub started_at : Option Time
  pub completed_at : Option Time
  pub worker_id : String
  pub error : String
  pub dependencies : List String
  pub timeout : Option Time
  pub max_duration : Option Duration

-- `uuid.New().String()` and `time.Now()` are the arguments `id` and `now`.
unfoldable pub new_task : String → Time → Priority → List ℕ → Task
new_task id now priority payload = record {
  id = id;
  priority = priority;
  payload = payload;
  created_at = now;
  status = status_pending;
  started_at = none;
  completed_at = none;
  worker_id = "";
  error = "";
  dependencies = [];
  timeout = none;
  max_duration = none;
}

unfoldable pub new_task_with_dependencies : String → Time → Priority → List ℕ → List String → Task
unfolding new_task
new_task_with_dependencies id now priority payload dependencies =
    record (new_task id now priority payload) { dependencies = dependencies }

unfoldable pub new_task_with_timeout : String → Time → Priority → List ℕ → Duration → Task
unfolding new_task
new_task_with_timeout id now priority payload max_duration =
    record (new_task id now priority payload) { max_duration = some max_duration }

unfoldable pub is_ready_to_run : Task → Bool
is_ready_to_run t = eqb_ℤ t.status status_pending && length t.dependencies == 0

-- `time.Since` reads the clock, the argument `now`.
unfoldable pub has_timed_out : Time → Task → Bool
has_timed_out now t = elim t.max_duration [
  | none ↦ false
  | some limit ↦ elim t.started_at [ none ↦ false | some started ↦ ltb_ℤ limit (sub_ℕ now started) ]
]

pub record NodeInfo : Type 0 where
  pub id : String
  pub address : String
  pub is_leader : Bool
  pub last_seen : Time
  pub status : String

pub record ClusterInfo : Type 0 where
  pub nodes : List NodeInfo
  pub leader_id : String
  pub total_tasks : ℕ
  pub pending_tasks : ℕ
  pub running_tasks : ℕ
