-- ===== src/Scheduler/Lifecycle.antt =====
-- The calls of a scheduler and the ticks of its loops, without Start, Stop and the workers.
use distributed_grpc_task_ma.Prelude.{◌≡◌, refl, ◌∙◌, ap, sym, String, Bool, none}
use distributed_grpc_task_ma.Prelude.Maps.{find}
use distributed_grpc_task_ma.Prelude.Effects.{Result}
use distributed_grpc_task_ma.Prelude.Outcome.{done}
use distributed_grpc_task_ma.Types.{Task, Time}
use distributed_grpc_task_ma.Storage.{Storage}
use distributed_grpc_task_ma.Worker.{WorkerMetrics}
use distributed_grpc_task_ma.Scheduler.{Scheduler, on_leader_change, submit, get_worker_metrics}
use distributed_grpc_task_ma.Scheduler.Queries.{update_node_info}
use distributed_grpc_task_ma.Scheduler.Duties.{
  recovery_process, distribute_tasks, check_failures, reassign_failed_tasks, check_autoscaling,
}
use distributed_grpc_task_ma.Scheduler.Keeps.{
  workers_of, Keeps, get_worker_metrics-Keeps, distribute_tasks-Keeps, check_autoscaling-Keeps,
  submit-Keeps, recovery_process-Keeps, reassign_failed_tasks-Keeps, check_failures-Detects,
}

module _ {S : Type 0} (storage : Storage S) where
  -- one call, or one tick of a loop, that returns
  pub data Step (s : Scheduler S) : Scheduler S → Type 0 where
    leads : (b : Bool) → Step s (on_leader_change b s).0
    -- a call that is passed on to the storage, which it leaves in the state `w`
    stores : (w : S) → Step s (record s { world = w })
    submits :
        (t : Task) (r : Result Task) {s' : Scheduler S}
        → submit storage t s ≡ done (r, s')
        → Step s s'
    measures :
        (m : WorkerMetrics) {s' : Scheduler S} → get_worker_metrics s ≡ done (m, s') → Step s s'
    reports : (now : Time) → Step s (update_node_info storage now s)
    recovers : {s' : Scheduler S} → recovery_process storage s ≡ done s' → Step s s'
    distributes : (now : Time) {s' : Scheduler S} → distribute_tasks now s ≡ done s' → Step s s'
    detects : (now : Time) {s' : Scheduler S} → check_failures storage now s ≡ done s' → Step s s'
    reassigns : {s' : Scheduler S} → reassign_failed_tasks storage s ≡ done s' → Step s s'
    scales : (now : Time) {s' : Scheduler S} → check_autoscaling now s ≡ done s' → Step s s'

-- the scheduler of the node `self`, which does not take that node for failed
pub record IsSteady {S : Type 0} (self : String) (s : Scheduler S) : Type 0 where
  pub itself : s.node_id ≡ self
  pub not_failed : find self s.failure_detector.failed_nodes ≡ none

-- a call leaves it so, and leaves the workers alone
pub record Stays {S : Type 0} (self : String) (s s' : Scheduler S) : Type 0 where
  pub steady : IsSteady self s'
  pub workers : workers_of s'.worker_pool ≡ workers_of s.worker_pool

Keeps-Stays :
    {S : Type 0} (self : String) (s s' : Scheduler S)
    → Keeps s s'
    → IsSteady self s
    → Stays self s s'
Keeps-Stays self s s' k i = record {
  steady = record {
    itself = k.same_id ∙ i.itself;
    not_failed = ap (λ d. find self d.failed_nodes) k.same_detector ∙ i.not_failed;
  };
  workers = k.same_workers;
}

module _ {S : Type 0} (storage : Storage S) (self : String) where
  pub Step-Stays : {s s' : Scheduler S} → Step storage s s' → IsSteady self s → Stays self s s'
  unfolding on_leader_change update_node_info
  Step-Stays (leads b) i = record {
    steady = record { itself = i.itself; not_failed = i.not_failed };
    workers = refl;
  }
  Step-Stays (stores w) i = record {
    steady = record { itself = i.itself; not_failed = i.not_failed };
    workers = refl;
  }
  Step-Stays (reports now) i = record {
    steady = record { itself = i.itself; not_failed = i.not_failed };
    workers = refl;
  }
  Step-Stays {s = s} (submits t r e) i =
      Keeps-Stays self s _ ((submit-Keeps storage s t).result _ e) i
  Step-Stays {s = s} (measures m e) i =
      Keeps-Stays self s _ ((get_worker_metrics-Keeps s).result _ e) i
  Step-Stays {s = s} (recovers e) i =
      Keeps-Stays self s _ ((recovery_process-Keeps storage s).result _ e) i
  Step-Stays {s = s} (distributes now e) i =
      Keeps-Stays self s _ ((distribute_tasks-Keeps s now).result _ e) i
  Step-Stays {s = s} (reassigns e) i =
      Keeps-Stays self s _ ((reassign_failed_tasks-Keeps storage s).result _ e) i
  Step-Stays {s = s} (scales now e) i =
      Keeps-Stays self s _ ((check_autoscaling-Keeps s now).result _ e) i
  Step-Stays {s = s} {s' = s'} (detects now e) i =
      let d = (check_failures-Detects storage s now).result s' e in
      record {
        steady = record {
          itself = d.same_id ∙ i.itself;
          not_failed =
              ap (λ id. find id s'.failure_detector.failed_nodes) (sym i.itself)
              ∙ d.itself
                  (ap (λ id. find id s.failure_detector.failed_nodes) i.itself ∙ i.not_failed);
        };
        workers = d.same_workers;
      }
