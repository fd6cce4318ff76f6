-- ===== src/Api.antt =====
-- internal/api/api.go: the HTTP server of a scheduler. A handler is given what ShouldBindJSON of the gin
-- library makes of the body, and what uuid.New, time.Now and the leader election answer while it runs.
-- A handler that panics is answered by the library.
pub mod Serve
pub mod Progress
pub mod Tasks
pub mod Posts
mod Tests
use Prim.Native.String.{◌++◌}
use distributed_grpc_task_ma.Prelude.{
  ℕ, ◌+◌, ◌*◌, ◌-◌, ◌%◌, String, Bool, List, Option, none, some, ℤ, pos, negsuc, sub_ℕ, ltb, leb,
  if◌then◌else◌,
}
use distributed_grpc_task_ma.Prelude.Effects.{Error, Result, ok, err, error_text}
use distributed_grpc_task_ma.Prelude.Outcome.{Outcome, done, ◌>>=◌, or_panic}
use distributed_grpc_task_ma.Types.{
  Task, Time, Duration, Priority, Status, ClusterInfo, parse_status,
}
use distributed_grpc_task_ma.Worker.{WorkerMetrics}
use distributed_grpc_task_ma.Storage.{Storage}
use distributed_grpc_task_ma.Scheduler
use distributed_grpc_task_ma.Scheduler.{Scheduler, get_worker_metrics}
use distributed_grpc_task_ma.Scheduler.Queries
use distributed_grpc_task_ma.Scheduler.Queries.{SchedulerStats, get_queue_stats}

-- The scheduler, the counters and the gauges. The histogram and the router are left out.
pub record Api (S : Type 0) : Type 0 where
  pub scheduler : Scheduler S
  pub tasks_submitted : ℕ
  pub tasks_completed : ℕ
  pub tasks_failed : ℕ
  pub queue_size : ℕ
  pub worker_count : ℕ

-- NewAPI and initMetrics
unfoldable pub new_api : {S : Type 0} → Scheduler S → Api S
new_api s = record {
  scheduler = s;
  tasks_submitted = 0;
  tasks_completed = 0;
  tasks_failed = 0;
  queue_size = 0;
  worker_count = 0;
}

pub record TaskRequest : Type 0 where
  pub priority : Priority
  pub payload : List ℕ

pub record DependenciesRequest : Type 0 where
  pub priority : Priority
  pub payload : List ℕ
  pub dependencies : List String

-- `timeout` is a number of seconds
pub record TimeoutRequest : Type 0 where
  pub priority : Priority
  pub payload : List ℕ
  pub timeout : ℤ

-- `none` is a nil pointer or a nil slice
pub record UpdateRequest : Type 0 where
  pub priority : Option Priority
  pub payload : Option (List ℕ)
  pub status : Option Status
  pub dependencies : Option (List String)
  pub timeout : Option ℤ

pub data Body : Type 0 where
  failure : String → Body
  task : Option Task → Body
  tasks : List Task → Body
  deleted : Body
  cluster_info : ClusterInfo → Body
  stats : SchedulerStats → WorkerMetrics → Body
  health : Time → String → Bool → Body

pub record Response : Type 0 where
  pub status : ℕ
  pub body : Body

abbrev pub refused : ℕ → String → Response
refused status text = record { status = status; body = failure text }

abbrev pub bad_request : Error → Response
bad_request e = refused 400 ("Invalid request body: " ++ error_text e)

-- `time.Duration(n) * time.Second`, in an int64
unfoldable pub seconds_of : ℤ → Duration
seconds_of (pos n) =
    let m = (n * 1000000000) % 18446744073709551616 in
    if ltb m (9223372036854775808) then pos m else sub_ℕ m (18446744073709551616)
seconds_of (negsuc n) =
    let m = ((n + 1) * 1000000000) % 18446744073709551616 in
    if leb m (9223372036854775808) then sub_ℕ 0 m else pos (18446744073709551616 - m)

abbrev pub or_old : {A : Type 0} → A → Option A → A
or_old a none = a
or_old a (some b) = b

-- the assignments of updateTask
unfoldable pub merged : UpdateRequest → Task → Task
unfolding seconds_of
merged r t = record t {
  priority = or_old t.priority r.priority;
  payload = or_old t.payload r.payload;
  status = or_old t.status r.status;
  dependencies = or_old t.dependencies r.dependencies;
  max_duration = elim r.timeout [ none ↦ t.max_duration | some n ↦ some (seconds_of n) ];
}

-- what a handler reads besides its request: the id of a new task, the time, the leader
pub record Context : Type 0 where
  pub id : String
  pub now : Time
  pub leader : String

module _ {S : Type 0} where
  -- the answer to a submission
  unfoldable pub created : Result Task × Scheduler S → Api S → Response × Api S
  created (err e, s) api = (refused 500 (error_text e), record api { scheduler = s })
  created (ok t, s) api = (
    record { status = 201; body = task (some t) },
    record api { scheduler = s; tasks_submitted = api.tasks_submitted + 1 },
  )

  abbrev pub listed : Result (List Task) × Scheduler S → Api S → Response × Api S
  listed (err e, s) api = (refused 500 (error_text e), record api { scheduler = s })
  listed (ok ts, s) api = (record { status = 200; body = tasks ts }, record api { scheduler = s })

  unfoldable pub health_handler : Context → Api S → Response × Api S
  health_handler c api = (
    record {
      status = 200;
      body = health c.now (Queries.get_node_id api.scheduler) (Queries.is_leader api.scheduler);
    },
    api,
  )

-- the answers of getTask, updateTask and deleteTask to what the scheduler returns
abbrev pub fetched : Result (Option Task) → Response
fetched (err e) = refused 404 "Task not found"
fetched (ok t) = record { status = 200; body = task t }

abbrev pub replaced : Task → Result (Unit {0}) → Response
replaced t (err e) = refused 500 ("Failed to update task: " ++ error_text e)
replaced t (ok _) = record { status = 200; body = task (some t) }

abbrev pub removed : Result (Unit {0}) → Response
removed (err e) = refused 500 ("Failed to delete task: " ++ error_text e)
removed (ok _) = record { status = 200; body = deleted }

module _ {S : Type 0} (storage : Storage S) where
  unfoldable pub list_tasks : Api S → Response × Api S
  list_tasks api = listed (Queries.get_all_tasks storage api.scheduler) api

  unfoldable pub get_task : String → Api S → Response × Api S
  unfolding Queries.get_task
  get_task id api =
      let (r, s) = Queries.get_task storage id api.scheduler in
      (fetched r, record api { scheduler = s })

  unfoldable pub get_tasks_by_status : String → Api S → Response × Api S
  unfolding parse_status
  get_tasks_by_status status api =
      listed (Queries.get_tasks_by_status storage (parse_status status) api.scheduler) api

  unfoldable pub get_cluster_info : Context → Api S → Response × Api S
  get_cluster_info c api =
      let (info, s) = Queries.get_cluster_info storage c.leader api.scheduler in
      (record { status = 200; body = cluster_info info }, record api { scheduler = s })

  -- updateTask, from the task that the scheduler returns
  unfoldable pub update_found :
      UpdateRequest → Result (Option Task) × Scheduler S → Api S → Outcome (Response × Api S)
  unfolding merged Queries.update_task
  update_found r (err e, s) api = done (refused 404 "Task not found", record api { scheduler = s })
  update_found r (ok o, s) api = or_panic o >>= λ t.
      let (u, s') = Queries.update_task storage (merged r t) s in
      done (replaced (merged r t) u, record api { scheduler = s' })

  unfoldable pub update_task : String → Result UpdateRequest → Api S → Outcome (Response × Api S)
  unfolding update_found
  update_task id (err e) api = done (bad_request e, api)
  update_task id (ok r) api = update_found r (Queries.get_task storage id api.scheduler) api

  unfoldable pub delete_task : String → Api S → Response × Api S
  unfolding Queries.delete_task
  delete_task id api =
      let (u, s) = Queries.delete_task storage id api.scheduler in
      (removed u, record api { scheduler = s })

module _ {S : Type 0} where
  unfoldable pub get_stats : Api S → Outcome (Response × Api S)
  unfolding get_queue_stats get_worker_metrics
  get_stats api = do
    queue_stats ← get_queue_stats api.scheduler
    (metrics, s) ← get_worker_metrics api.scheduler
    done (
      record { status = 200; body = stats queue_stats metrics },
      record api {
        scheduler = s;
        queue_size = queue_stats.queue.total_tasks;
        worker_count = metrics.worker_count;
      },
    )

module _ {S : Type 0} (storage : Storage S) where
  unfoldable pub submit_task : Context → Result TaskRequest → Api S → Outcome (Response × Api S)
  unfolding created Scheduler.submit_task
  submit_task c (err e) api = done (bad_request e, api)
  submit_task c (ok r) api =
      Scheduler.submit_task storage c.id c.now r.priority r.payload api.scheduler >>= λ q.
      done (created q api)

  unfoldable pub submit_task_with_dependencies :
      Context → Result DependenciesRequest → Api S → Outcome (Response × Api S)
  unfolding created Scheduler.submit_task_with_dependencies
  submit_task_with_dependencies c (err e) api = done (bad_request e, api)
  submit_task_with_dependencies c (ok r) api =
      Scheduler.submit_task_with_dependencies storage c.id c.now r.priority r.payload r.dependencies
        api.scheduler
      >>= λ q. done (created q api)

  unfoldable pub submit_task_with_timeout :
      Context → Result TimeoutRequest → Api S → Outcome (Response × Api S)
  unfolding created seconds_of Scheduler.submit_task_with_timeout
  submit_task_with_timeout c (err e) api = done (bad_request e, api)
  submit_task_with_timeout c (ok r) api =
      Scheduler.submit_task_with_timeout storage c.id c.now r.priority r.payload
        (seconds_of r.timeout) api.scheduler
      >>= λ q. done (created q api)
