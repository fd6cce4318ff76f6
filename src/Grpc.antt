-- ===== src/Grpc.antt =====
-- internal/grpc/server.go: the handlers of the gRPC server, and the conversions between the types of the
-- program and the messages of proto/scheduler.proto. The enums are int32, so other values exist; an
-- instant is counted from the Unix epoch.
pub mod Convert
pub mod Cluster
mod Tests
use distributed_grpc_task_ma.Prelude.{
  ℕ, ◌+◌, ◌*◌, ◌-◌, ◌/◌, ◌%◌, ◌<◌, String, Bool, true, false, List, [], map, Option, none, some, ℤ,
  pos, eqb_ℤ, sub_ℕ, if◌then◌else◌, ltb,
}
use distributed_grpc_task_ma.Prelude.Effects.{Result, ok, err, error_text}
use distributed_grpc_task_ma.Prelude.Outcome.{Outcome, done, ◌>>=◌}
use distributed_grpc_task_ma.Types.{
  Task, Time, Priority, priority_low, priority_medium, priority_high, Status, status_pending,
  status_running, status_completed, status_failed, ClusterInfo, NodeInfo,
}
use distributed_grpc_task_ma.Storage.{Storage}
use distributed_grpc_task_ma.Scheduler
use distributed_grpc_task_ma.Scheduler.Queries

-- the enums of scheduler.proto
abbrev pub ProtoPriority : Type 0
ProtoPriority = ℤ

abbrev pub ProtoStatus : Type 0
ProtoStatus = ℤ

unfoldable pub convert_priority : ProtoPriority → Priority
convert_priority p =
    if eqb_ℤ p (pos 3)
    then priority_high
    else if eqb_ℤ p (pos 2)
    then priority_medium
    else if eqb_ℤ p (pos 1)
    then priority_low
    else priority_low

unfoldable pub convert_status : ProtoStatus → Status
convert_status s =
    if eqb_ℤ s (pos 1)
    then status_pending
    else if eqb_ℤ s (pos 2)
    then status_running
    else if eqb_ℤ s (pos 3)
    then status_completed
    else if eqb_ℤ s (pos 4)
    then status_failed
    else status_pending

unfoldable pub convert_proto_priority : Priority → ProtoPriority
convert_proto_priority p =
    if eqb_ℤ p priority_high
    then pos 3
    else if eqb_ℤ p priority_medium
    then pos 2
    else if eqb_ℤ p priority_low
    then pos 1
    else pos 1

unfoldable pub convert_proto_status : Status → ProtoStatus
convert_proto_status s =
    if eqb_ℤ s status_pending
    then pos 1
    else if eqb_ℤ s status_running
    then pos 2
    else if eqb_ℤ s status_completed
    then pos 3
    else if eqb_ℤ s status_failed
    then pos 4
    else pos 1

-- `t.Unix()`
abbrev pub unix : Time → ℕ
unix t = t / 1000000000

-- the message Task; a time that is not set is 0
pub record ProtoTask : Type 0 where
  pub id : String
  pub priority : ProtoPriority
  pub payload : List ℕ
  pub created_at : ℕ
  pub status : ProtoStatus
  pub started_at : ℕ
  pub completed_at : ℕ
  pub worker_id : String
  pub error : String

abbrev pub unix_or_zero : Option Time → ℕ
unix_or_zero none = 0
unix_or_zero (some t) = unix t

unfoldable pub convert_task : Task → ProtoTask
unfolding convert_proto_priority convert_proto_status
convert_task t = record {
  id = t.id;
  priority = convert_proto_priority t.priority;
  payload = t.payload;
  created_at = unix t.created_at;
  status = convert_proto_status t.status;
  started_at = unix_or_zero t.started_at;
  completed_at = unix_or_zero t.completed_at;
  worker_id = t.worker_id;
  error = t.error;
}

-- the messages SubmitTaskResponse and GetTaskResponse, and ListTasksResponse
pub record TaskResponse : Type 0 where
  pub task : Option ProtoTask
  pub success : Bool
  pub error : String

pub record ListTasksResponse : Type 0 where
  pub tasks : List ProtoTask
  pub success : Bool
  pub error : String

abbrev pub refused : String → TaskResponse
refused text = record { task = none; success = false; error = text }

unfoldable pub task_response : Result Task → TaskResponse
unfolding convert_task
task_response (err e) = refused (error_text e)
task_response (ok t) = record { task = some (convert_task t); success = true; error = "" }

unfoldable pub list_response : Result (List Task) → ListTasksResponse
unfolding convert_task
list_response (err e) = record { tasks = []; success = false; error = error_text e }
list_response (ok ts) = record { tasks = map convert_task ts; success = true; error = "" }

module _ {S : Type 0} (storage : Storage S) where
  unfoldable pub submit_task :
      String
      → Time
      → ProtoPriority
      → List ℕ
      → Scheduler.Scheduler S
      → Outcome (TaskResponse × Scheduler.Scheduler S)
  unfolding convert_priority task_response Scheduler.submit_task
  submit_task id now priority payload s =
      Scheduler.submit_task storage id now (convert_priority priority) payload s >>= λ (r, s').
      done (task_response r, s')

  unfoldable pub get_task : String → Scheduler.Scheduler S → TaskResponse × Scheduler.Scheduler S
  unfolding task_response Queries.get_task
  get_task id s =
      let (r, s') = Queries.get_task storage id s in
      (
        elim r [
          | err e ↦ refused (error_text e)
          | ok none ↦ refused "task not found"
          | ok (some t) ↦ task_response (ok t)
        ],
        s',
      )

  -- the limit and the offset of the request are not read
  unfoldable pub list_tasks :
      ℤ → ℤ → Scheduler.Scheduler S → ListTasksResponse × Scheduler.Scheduler S
  unfolding list_response Queries.get_all_tasks
  list_tasks limit offset s = let (r, s') = Queries.get_all_tasks storage s in (list_response r, s')

  unfoldable pub get_tasks_by_status :
      ProtoStatus → ℤ → ℤ → Scheduler.Scheduler S → ListTasksResponse × Scheduler.Scheduler S
  unfolding list_response convert_status Queries.get_tasks_by_status
  get_tasks_by_status status limit offset s =
      let (r, s') = Queries.get_tasks_by_status storage (convert_status status) s in
      (list_response r, s')

-- int32(n) of an int that is not negative
unfoldable pub to_int32 : ℕ → ℤ
to_int32 n = let m = n % 4294967296 in if ltb m 2147483648 then pos m else sub_ℕ m 4294967296

pub record ProtoNodeInfo : Type 0 where
  pub id : String
  pub address : String
  pub is_leader : Bool
  pub last_seen : ℕ
  pub status : String

pub record ProtoClusterInfo : Type 0 where
  pub nodes : List ProtoNodeInfo
  pub leader_id : String
  pub total_tasks : ℤ
  pub pending_tasks : ℤ
  pub running_tasks : ℤ

abbrev pub convert_node : NodeInfo → ProtoNodeInfo
convert_node n = record {
  id = n.id;
  address = n.address;
  is_leader = n.is_leader;
  last_seen = unix n.last_seen;
  status = n.status;
}

unfoldable pub convert_cluster_info : ClusterInfo → ProtoClusterInfo
unfolding to_int32
convert_cluster_info info = record {
  nodes = map convert_node info.nodes;
  leader_id = info.leader_id;
  total_tasks = to_int32 info.total_tasks;
  pending_tasks = to_int32 info.pending_tasks;
  running_tasks = to_int32 info.running_tasks;
}
