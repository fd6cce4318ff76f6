-- ===== src/Worker.antt =====
-- internal/worker/worker_pool.go: the workers, and the counters that they share. An int64 counter is
-- its bit pattern, below 2 ^ 64. The processor, the storage and the queue are interfaces in the source
-- and parameters here.
pub mod Process
pub mod Counters
pub mod Rounds
mod Tests
use Prim.Native.String.{◌++◌}
use distributed_grpc_task_ma.Prelude.{
  ℕ, zero, suc, ◌+◌, ◌%◌, String, Bool, true, false, List, [], ◌∷◌, Option, none, some,
  if◌then◌else◌,
}
use distributed_grpc_task_ma.Prelude.Effects.{Result, ok, err, M, error_text}
use distributed_grpc_task_ma.Prelude.Outcome.{Outcome, done, ◌>>=◌}
use distributed_grpc_task_ma.Types.{Task, Time, status_running, status_completed, status_failed}

-- it gets a pointer to the task, and `S` is the world outside the workers
pub record TaskProcessor (S : Type 0) : Type 0 where
  pub process_task : M (Task × S) (Unit {0})

pub record TaskStorage (S : Type 0) : Type 0 where
  pub update_task : Task → M S (Unit {0})
  pub get_task : String → M S (Option Task)

pub record TaskQueue (Q : Type 0) : Type 0 where
  pub remove : Q → Outcome (Option Task × Q)
  pub get : Q → Outcome (Option Task)
  pub add : Q → Task → Outcome Q
  pub get_by_id : Q → String → Outcome (Option Task)
  pub update : Q → Task → Outcome Q
  pub len : Q → Outcome ℕ

pub record WorkerMetrics : Type 0 where
  pub tasks_processed : ℕ
  pub tasks_failed : ℕ
  pub tasks_in_progress : ℕ
  pub worker_count : ℕ
  pub queue_size : ℕ

-- `n++` and `n--` on an int64
unfoldable pub increment : ℕ → ℕ
increment n = (n + 1) % 18446744073709551616

unfoldable pub decrement : ℕ → ℕ
decrement n = (n + 18446744073709551615) % 18446744073709551616

pub record Worker : Type 0 where
  pub id : ℕ
  pub processing : Bool

unfoldable pub new_worker : ℕ → Worker
new_worker id = record { id = id; processing = false }

-- the sections of processTask under the lock of the metrics
unfoldable pub enter : WorkerMetrics → WorkerMetrics
enter m = record m { tasks_in_progress = increment m.tasks_in_progress }

unfoldable pub count_result : Result (Unit {0}) → WorkerMetrics → WorkerMetrics
count_result (err e) m = record m { tasks_failed = increment m.tasks_failed }
count_result (ok u) m = record m { tasks_processed = increment m.tasks_processed }

unfoldable pub leave : WorkerMetrics → WorkerMetrics
leave m = record m { tasks_in_progress = decrement m.tasks_in_progress }

-- a worker, the metrics that it shares, and the world outside
pub record Site (S : Type 0) : Type 0 where
  pub worker : Worker
  pub metrics : WorkerMetrics
  pub world : S

-- `decimal` is the verb %d of fmt.Sprintf
unfoldable pub mark_running : (ℕ → String) → Time → Worker → Task → Task
mark_running decimal now w t = record t {
  status = status_running;
  started_at = some now;
  worker_id = "worker-" ++ decimal w.id;
}

unfoldable pub mark_finished : Time → Result (Unit {0}) → Task → Task
mark_finished now (err e) t = record t { status = status_failed; error = error_text e }
mark_finished now (ok u) t = record t { status = status_completed; completed_at = some now }

-- UpdateTask, whose error is only written to the log
unfoldable pub store : {S : Type 0} → TaskStorage S → Task → S → S
store storage t s = (storage.update_task t s).1

module _ {S : Type 0} (decimal : ℕ → String) (processor : TaskProcessor S)
    (storage : TaskStorage S) where
  -- the call of the processor, with the task marked as running and stored
  unfoldable pub attempt : Time → Task → Site S → Result (Unit {0}) × (Task × S)
  unfolding mark_running store
  attempt started t site =
      let t' = mark_running decimal started site.worker t in
      processor.process_task (t', store storage t' site.world)

  -- `started` and `finished` are the two readings of the clock
  unfoldable pub process_task : Time → Time → Task → Site S → Task × Site S
  unfolding enter attempt mark_finished store count_result leave
  process_task started finished t site =
      let (r, (t', s)) = attempt started t site in
      let t'' = mark_finished finished r t' in
      (
        t'',
        record {
          worker = record site.worker { processing = false };
          metrics = leave (count_result r (enter site.metrics));
          world = store storage t'' s;
        },
      )

  module _ {Q : Type 0} (queue : TaskQueue Q) where
    -- one turn of the loop of Start; the first result says whether the loop goes on
    unfoldable pub turn : Bool → Time → Time → Site S → Q → Outcome (Bool × Site S × Q)
    unfolding process_task
    turn cancelled started finished site q = if cancelled then done (false, site, q) else do
      (t, q') ← queue.remove q
      elim t [
        | none ↦ done (true, site, q')
        | some task ↦ done (true, (process_task started finished task site).1, q')
      ]

unfoldable pub is_processing : Worker → Bool
is_processing w = w.processing

-- a value of the map that GetMetrics of a worker returns
pub data Figure : Type 0 where
  number : ℕ → Figure
  flag : Bool → Figure

abbrev pub worker_metrics : {S : Type 0} → Site S → List (String × Figure)
worker_metrics site =
    ("worker_id", number site.worker.id)
    ∷ ("processing", flag site.worker.processing)
    ∷ ("tasks_processed", number site.metrics.tasks_processed)
    ∷ ("tasks_failed", number site.metrics.tasks_failed)
    ∷ ("tasks_in_progress", number site.metrics.tasks_in_progress)
    ∷ []

pub record WorkerPool : Type 0 where
  pub worker_count : ℕ
  pub workers : List Worker
  pub metrics : WorkerMetrics

unfoldable pub new_worker_pool : ℕ → WorkerPool
new_worker_pool n = record {
  worker_count = n;
  workers = [];
  metrics = record {
    tasks_processed = 0;
    tasks_failed = 0;
    tasks_in_progress = 0;
    worker_count = 0;
    queue_size = 0;
  };
}

-- the workers with the ids from `i`
unfoldable pub new_workers : ℕ → ℕ → List Worker
unfolding new_worker
new_workers i zero = []
new_workers i (suc n) = new_worker i ∷ new_workers (i + 1) n

-- Start, before the goroutines run
unfoldable pub start : WorkerPool → WorkerPool
unfolding new_workers
start p = record p {
  workers = new_workers 0 p.worker_count;
  metrics = record p.metrics { worker_count = p.worker_count };
}

module _ {Q : Type 0} (queue : TaskQueue Q) where
  unfoldable pub get_metrics : WorkerPool → Q → Outcome (WorkerMetrics × WorkerPool)
  get_metrics p q = queue.len q >>= λ n.
      let m : WorkerMetrics = record p.metrics { queue_size = n } in
      done (m, record p { metrics = m })
