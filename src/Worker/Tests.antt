-- ===== src/Worker/Tests.antt =====
-- The theorems about the workers, at concrete workers.
use distributed_grpc_task_ma.Prelude.{
  ◌≡◌, refl, ℕ, ◌+◌, ◌%◌, String, false, [], ◌∷◌, none, pos, arith,
}
use distributed_grpc_task_ma.Prelude.Effects.{ok, err, new}
use distributed_grpc_task_ma.Types.{Task}
use distributed_grpc_task_ma.Worker.{
  TaskProcessor, TaskStorage, WorkerMetrics, Site, process_task, enter, count_result,
  new_worker_pool,
}
use distributed_grpc_task_ma.Worker.Process.{IsProcessed, process_task_lem}
use distributed_grpc_task_ma.Worker.Counters.{
  processing, counted, count_busy, idle_workers, Reaches, begins, enters, counts, Reaches-counters,
}

abbrev task : Task
task = record {
  id = "a";
  priority = pos 0;
  payload = [];
  created_at = 0;
  status = pos 0;
  started_at = none;
  completed_at = none;
  worker_id = "";
  error = "";
  dependencies = [];
  timeout = none;
  max_duration = none;
}

abbrev decimal : ℕ → String
decimal n = "7"

-- it fails, and the world is the number of updates
abbrev processor : TaskProcessor ℕ
processor = record { process_task = λ s. (err (new "no"), s) }

abbrev storage : TaskStorage ℕ
storage = record { update_task = λ t s. (ok tt, s + 1); get_task = λ id s. (ok none, s) }

abbrev site : Site ℕ
site = record {
  worker = record { id = 7; processing = false };
  metrics = record {
    tasks_processed = 4;
    tasks_failed = 2;
    tasks_in_progress = 1;
    worker_count = 3;
    queue_size = 0;
  };
  world = 0;
}

abbrev after : Task × Site ℕ
unfolding process_task
after = process_task decimal processor storage 10 20 task site

process_task_lem_example : IsProcessed decimal processor storage 10 20 task site after.0 after.1
unfolding after
process_task_lem_example =
    process_task_lem decimal processor storage 10 20 task site (ground (arith)) (ground (arith))
      (ground (arith))

-- the first of two workers has counted its result, the second has entered
abbrev metrics : WorkerMetrics
unfolding new_worker_pool enter count_result
metrics = enter (count_result (ok tt) (enter (new_worker_pool 2).metrics))

metrics-Reaches : Reaches 2 1 (counted ∷ processing ∷ []) metrics
unfolding metrics idle_workers
metrics-Reaches = enters 1 (counts 0 (ok tt) (enters 0 begins refl) refl) refl

Reaches-counters_example :
    (metrics.tasks_in_progress ≡ count_busy (counted ∷ processing ∷ []))
    × ((metrics.tasks_processed + metrics.tasks_failed) % 18446744073709551616
        ≡ 1 % 18446744073709551616)
Reaches-counters_example = Reaches-counters metrics-Reaches (omega arith)
