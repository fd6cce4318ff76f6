-- ===== src/Scheduler.antt =====
-- internal/scheduler/scheduler.go: the scheduler of a node, over its storage, its queue, its workers and
-- its coordinator. What is only written to the log is left out. A call that waits for ever, as Add of
-- the queue does, makes its caller wait for ever.
pub mod Queries
pub mod Duties
pub mod Stalls
pub mod Failures
pub mod Scaling
pub mod Returns
pub mod Loops
pub mod Keeps
pub mod Lifecycle
pub mod Crew
pub mod Shutdown
pub mod Stopping
mod Tests
use distributed_grpc_task_ma.Prelude.{
  ℕ, ◌*◌, ◌/◌, String, Bool, true, false, not, List, [], ◌∷◌, Option, none, some, ℤ, pos, eqb_ℤ,
  leb, length, if◌then◌else◌,
}
use distributed_grpc_task_ma.Prelude.Maps.{StrMap}
use distributed_grpc_task_ma.Prelude.Effects.{Error, new, Result, ok, err, M, relabel}
use distributed_grpc_task_ma.Prelude.Outcome.{Outcome, done, ◌>>=◌, or_panic}
use distributed_grpc_task_ma.Types.{
  Task, Time, Duration, Priority, Status, NodeInfo, ClusterInfo, priority_low, priority_medium,
  priority_high, status_pending, status_running, new_task, new_task_with_dependencies,
  new_task_with_timeout,
}
use distributed_grpc_task_ma.Storage.{Storage}
use distributed_grpc_task_ma.Queue.{
  PriorityQueue, QueueStats, len, add, get_stats, remove, get, get_by_id, update,
}
use distributed_grpc_task_ma.Coordinator.{DistributedCoordinator, new_distributed_coordinator}
use distributed_grpc_task_ma.Worker.{WorkerPool, WorkerMetrics, TaskQueue}

pub record FailureDetector : Type 0 where
  pub failed_workers : StrMap Time
  pub failed_nodes : StrMap Time
  pub check_interval : Duration
  pub cleanup_interval : Duration

pub record TaskReassigner : Type 0 where
  pub failed_tasks : StrMap Task
  pub reassign_interval : Duration

-- The thresholds are in tenths. `last_scale_time` is `none` for Go's zero time.
pub record Autoscaler : Type 0 where
  pub min_workers : ℕ
  pub max_workers : ℕ
  pub scale_up_threshold : ℕ
  pub scale_down_threshold : ℕ
  pub check_interval : Duration
  pub last_scale_time : Option Time
  pub cooldown_period : Duration

-- the queue as the workers use it
abbrev pub task_queue : TaskQueue PriorityQueue
task_queue = record {
  remove = remove;
  get = get;
  add = add;
  get_by_id = get_by_id;
  update = update;
  len = len;
}

-- `world` is the state of the storage; `worker_pool` is `none` before Start
pub record Scheduler (S : Type 0) : Type 0 where
  pub node_id : String
  pub address : String
  pub queue : PriorityQueue
  pub world : S
  pub coordinator : DistributedCoordinator
  pub worker_pool : Option WorkerPool
  pub is_leader : Bool
  pub peers : List String
  pub max_queue_size : ℕ
  pub failure_detector : FailureDetector
  pub task_reassigner : TaskReassigner
  pub autoscaler : Autoscaler

abbrev second : Duration
second = pos 1000000000

abbrev seconds : ℕ → Duration
seconds n = pos (n * 1000000000)

-- the time for which ProcessTask sleeps; it never fails
unfoldable pub sleep_time : Priority → Duration
sleep_time p =
    if eqb_ℤ p priority_high
    then seconds 1
    else if eqb_ℤ p priority_medium
    then seconds 2
    else if eqb_ℤ p priority_low
    then seconds 3
    else pos 0

unfoldable pub new_scheduler :
    {S : Type 0} → String → String → S → PriorityQueue → List String → Scheduler S
unfolding new_distributed_coordinator
new_scheduler node_id address world queue peers = record {
  node_id = node_id;
  address = address;
  queue = queue;
  world = world;
  coordinator = new_distributed_coordinator node_id (seconds 5) (seconds 30);
  worker_pool = none;
  is_leader = false;
  peers = peers;
  max_queue_size = 10000;
  failure_detector = record {
    failed_workers = [];
    failed_nodes = [];
    check_interval = seconds 10;
    cleanup_interval = seconds 60;
  };
  task_reassigner = record { failed_tasks = []; reassign_interval = seconds 30 };
  autoscaler = record {
    min_workers = 2;
    max_workers = 20;
    scale_up_threshold = 8;
    scale_down_threshold = 2;
    check_interval = seconds 30;
    last_scale_time = none;
    cooldown_period = seconds 60;
  };
}

abbrev pub queue_full : Error
queue_full = new "queue is full, cannot accept new tasks"

abbrev pub not_leader : Error
not_leader = new "only leader can submit tasks"

-- a call of the storage
abbrev pub stored : {S A : Type 0} → M S A → Scheduler S → Result A × Scheduler S
stored m s = let (r, w) = m s.world in (r, record s { world = w })

module _ {S : Type 0} where
  -- GetWorkerMetrics, which asks the queue for its length
  unfoldable pub get_worker_metrics : Scheduler S → Outcome (WorkerMetrics × Scheduler S)
  get_worker_metrics s = do
    p ← or_panic s.worker_pool
    n ← len s.queue
    let m : WorkerMetrics = record p.metrics { queue_size = n } in
        done (m, record s { worker_pool = some (record p { metrics = m }) })

module _ {S : Type 0} (storage : Storage S) where
  unfoldable pub submit_task_internal : Task → Scheduler S → Outcome (Result Task × Scheduler S)
  submit_task_internal t s =
      let (r, s') = stored (storage.save_task t) s in
      elim r [
        | err e ↦ done (relabel "failed to save task" (err e), s')
        | ok _ ↦ do
          q ← add s'.queue t
          let (r', s'') = stored (storage.save_to_queue t) (record s' { queue = q }) in
              elim r' [
                | err e ↦ done (relabel "failed to save task to queue" (err e), s'')
                | ok _ ↦ done (ok t, s'')
              ]
      ]

  -- the conditions that the three ways to submit a task begin with
  unfoldable pub submit : Task → Scheduler S → Outcome (Result Task × Scheduler S)
  unfolding submit_task_internal
  submit t s = len s.queue >>= λ n.
      if leb s.max_queue_size n
      then done (err queue_full, s)
      else if not s.is_leader
      then done (err not_leader, s)
      else submit_task_internal t s

  unfoldable pub submit_task :
      String → Time → Priority → List ℕ → Scheduler S → Outcome (Result Task × Scheduler S)
  unfolding submit new_task
  submit_task id now priority payload s = submit (new_task id now priority payload) s

  unfoldable pub submit_task_with_dependencies :
      String
      → Time
      → Priority
      → List ℕ
      → List String
      → Scheduler S
      → Outcome (Result Task × Scheduler S)
  unfolding submit new_task_with_dependencies
  submit_task_with_dependencies id now priority payload dependencies s =
      submit (new_task_with_dependencies id now priority payload dependencies) s

  unfoldable pub submit_task_with_timeout :
      String
      → Time
      → Priority
      → List ℕ
      → Duration
      → Scheduler S
      → Outcome (Result Task × Scheduler S)
  unfolding submit new_task_with_timeout
  submit_task_with_timeout id now priority payload max_duration s =
      submit (new_task_with_timeout id now priority payload max_duration) s

-- The second result says whether the goroutine leaderResponsibilities is started.
unfoldable pub on_leader_change : {S : Type 0} → Bool → Scheduler S → Scheduler S × Bool
on_leader_change leads s = (record s { is_leader = leads }, leads)
