-- ===== src/Scheduler/Scaling.antt =====
-- The autoscaler: what it decides, when, and what comes of it.
use distributed_grpc_task_ma.Prelude.{
  ◌≡◌, ℕ, ◌+◌, ◌*◌, ◌≤◌, ◌<◌, true, false, List, [], ◌⊎◌, Option, none, some, arith,
}
use distributed_grpc_task_ma.Prelude.Outcome.{done}
use distributed_grpc_task_ma.Types.{Time}
use distributed_grpc_task_ma.Worker.{WorkerPool, Worker}
use distributed_grpc_task_ma.Scheduler.{Scheduler, Autoscaler, get_worker_metrics}
use distributed_grpc_task_ma.Scheduler.Duties.{decide, check_autoscaling, is_cooling, scale_workers}

-- From a number of workers within the limits, a decision is one worker more or fewer and stays within
-- the limits; one more is decided only above the upper threshold, one fewer only below the lower.
pub decide_bounds :
    (total limit workers target : ℕ) (a : Autoscaler)
    → a.min_workers ≤ workers
    → workers ≤ a.max_workers
    → decide total limit workers a ≡ some target
    → (a.min_workers ≤ target)
      × (target ≤ a.max_workers)
      × (((target ≡ workers + 1) × (a.scale_up_threshold * limit < 10 * total))
          ⊎ ((target + 1 ≡ workers) × (10 * total < a.scale_down_threshold * limit)))
unfolding decide
decide_bounds total limit workers target a l h e = ground arith

abbrev pub pool_workers : Option WorkerPool → List Worker
pool_workers none = []
pool_workers (some p) = p.workers

-- If the check for scaling returns, the workers are those that there were, and it has taken the time of
-- a scaling only on a leader and not before the cooldown was over.
pub check_autoscaling_lem :
    {S : Type 0} (now : Time) (s s' : Scheduler S)
    → check_autoscaling now s ≡ done s'
    → (pool_workers s'.worker_pool ≡ pool_workers s.worker_pool)
      × ((s'.autoscaler ≡ s.autoscaler)
          ⊎ ((s'.autoscaler ≡ record s.autoscaler { last_scale_time = some now })
              × (s.is_leader ≡ true)
              × (is_cooling now s.autoscaler ≡ false)))
unfolding check_autoscaling get_worker_metrics scale_workers
check_autoscaling_lem now s s' e = ground arith
