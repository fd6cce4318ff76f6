-- ===== src/Scheduler/Tests.antt =====
-- The theorems about the scheduler, at a concrete one.
use distributed_grpc_task_ma.Prelude.{
  ◌≡◌, ◌≢◌, ◌⊎◌, refl, ℕ, ◌+◌, ◌*◌, ◌<◌, ◌≤◌, String, true, false, if◌then◌else◌, List, [], ◌∷◌,
  none, some, pos, arith,
}
use distributed_grpc_task_ma.Prelude.Effects.{ok}
use distributed_grpc_task_ma.Prelude.Outcome.{hangs, done}
use distributed_grpc_task_ma.Queue.Tests.{task, pair}
use distributed_grpc_task_ma.Storage.Tests.{Memory, store, empty}
use distributed_grpc_task_ma.Worker.{
  TaskProcessor, TaskStorage, Site, WorkerPool, new_worker_pool, start,
}
use distributed_grpc_task_ma.Scheduler.{
  Scheduler, Autoscaler, new_scheduler, submit_task, on_leader_change,
}
use distributed_grpc_task_ma.Scheduler.Duties.{
  recovery_process, decide, check_autoscaling, is_cooling,
}
use distributed_grpc_task_ma.Scheduler.Stalls.{
  submit_task-accepts, any_pending, recovery_process-hangs,
}
use distributed_grpc_task_ma.Worker.Rounds.{Round}
use distributed_grpc_task_ma.Storage.{Storage}
use distributed_grpc_task_ma.Queue.{get_stats, len, count_tasks, count_task}
use distributed_grpc_task_ma.Scheduler.Scaling.{decide_bounds, pool_workers, check_autoscaling_lem}

abbrev pub scheduler : Scheduler Memory
unfolding new_scheduler on_leader_change
scheduler = (on_leader_change true (new_scheduler "n" ":1" empty pair [])).0

submit_task-accepts_example :
    submit_task store "c" 3 (pos 1) [] scheduler ≢ done (ok (task "c" (pos 1) 3), scheduler)
submit_task-accepts_example =
    submit_task-accepts store "c" 3 (pos 1) [] (task "c" (pos 1) 3) scheduler scheduler

-- the list of pending tasks has one
abbrev listing : Storage Memory
listing = record store { get_queue_tasks = λ w. (ok (task "c" (pos 1) 3 ∷ []), w) }

recovery_process-hangs_example : recovery_process listing scheduler ≡ (
    if any_pending (task "c" (pos 1) 3 ∷ [])
    then hangs
    else done (record scheduler { world = empty }))
unfolding scheduler
recovery_process-hangs_example =
    recovery_process-hangs listing scheduler (task "c" (pos 1) 3 ∷ []) empty refl

abbrev decimal : ℕ → String
decimal n = "1"

abbrev idle_processor : TaskProcessor ℕ
idle_processor = record { process_task = λ s. (ok tt, s) }

abbrev no_storage : TaskStorage ℕ
no_storage = record { update_task = λ t s. (ok tt, s); get_task = λ id s. (ok none, s) }

abbrev site : Site ℕ
unfolding new_worker_pool
site = record {
  worker = record { id = 1; processing = false };
  metrics = (new_worker_pool 1).metrics;
  world = 0;
}

abbrev rounds : List Round
rounds = record { cancelled = false; started = 1; finished = 2 } ∷ []

abbrev scaler : Autoscaler
unfolding new_scheduler on_leader_change scheduler
scaler = scheduler.autoscaler

decide_bounds_example :
    (2 ≤ 6)
    × (6 ≤ 20)
    × (((6 ≡ 5 + 1) × (8 * 10000 < 10 * 9000)) ⊎ ((6 + 1 ≡ 5) × (10 * 9000 < 2 * 10000)))
unfolding scaler decide
decide_bounds_example = decide_bounds 9000 10000 5 6 scaler (omega arith) (omega arith) refl

-- a leader whose queue, of two tasks, is full
abbrev before : Scheduler Memory
unfolding new_scheduler on_leader_change new_worker_pool start scheduler
before = record scheduler { worker_pool = some (start (new_worker_pool 5)); max_queue_size = 2 }

abbrev pool : WorkerPool
unfolding new_worker_pool start
pool = record (start (new_worker_pool 5)) {
  metrics = record (start (new_worker_pool 5)).metrics { queue_size = 2 };
}

abbrev after : Scheduler Memory
unfolding before pool
after = record before {
  worker_pool = some pool;
  autoscaler = record before.autoscaler { last_scale_time = some 100 };
}

check_autoscaling_lem_example :
    (pool_workers after.worker_pool ≡ pool_workers before.worker_pool)
    × ((after.autoscaler ≡ before.autoscaler)
        ⊎ ((after.autoscaler ≡ record before.autoscaler { last_scale_time = some 100 })
            × (before.is_leader ≡ true)
            × (is_cooling 100 before.autoscaler ≡ false)))
unfolding check_autoscaling get_stats len count_tasks count_task before after pool
check_autoscaling_lem_example = check_autoscaling_lem 100 before after refl
