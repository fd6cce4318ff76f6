-- ===== src/Scheduler/Keeps.antt =====
-- What the calls of a scheduler leave as it is, if they return.
use distributed_grpc_task_ma.Prelude.{
  ◌≡◌, refl, ◌∙◌, ap, String, false, List, [], ◌∷◌, Option, none, some, inl, inr, arith, leb, ◌==◌,
  ◌||◌, not, Bool-cases,
}
use distributed_grpc_task_ma.Prelude.Maps.{find}
use distributed_grpc_task_ma.Prelude.Effects.{Error, Result, ok, err}
use distributed_grpc_task_ma.Prelude.Outcome.{
  Outcome, or_panic, WhenDone, WhenDone-bind, WhenDone-done,
}
use distributed_grpc_task_ma.Types.{Task, Time, NodeInfo, status_failed}
use distributed_grpc_task_ma.Storage.{Storage}
use distributed_grpc_task_ma.Queue.{add, len, get_stats}
use distributed_grpc_task_ma.Worker.{WorkerPool, Worker}
use distributed_grpc_task_ma.Scheduler.{Scheduler, submit, submit_task_internal, get_worker_metrics}
use distributed_grpc_task_ma.Scheduler.Duties.{
  recovery_process, distribute_tasks, check_failures, reassign_failed_tasks, check_autoscaling,
  is_lost, is_cooling, decide, scale_workers, recover, reassign,
}
use distributed_grpc_task_ma.Scheduler.Failures.{reports_lost, find-mark_failed}

abbrev pub workers_of : Option WorkerPool → Option (List Worker)
workers_of none = none
workers_of (some p) = some p.workers

-- what the calls leave as it is
pub record Keeps {S : Type 0} (s s' : Scheduler S) : Type 0 where
  pub same_id : s'.node_id ≡ s.node_id
  pub same_detector : s'.failure_detector ≡ s.failure_detector
  pub same_workers : workers_of s'.worker_pool ≡ workers_of s.worker_pool

module _ {S : Type 0} (s : Scheduler S) where
  whole : Keeps s s
  whole = record { same_id = refl; same_detector = refl; same_workers = refl }

result-WhenDone :
    {A B : Type 0} {P : B → Type 0} (r : Result A) {f : Error → Outcome B} {g : A → Outcome B}
    → ((e : Error) → WhenDone P (f e))
    → ((a : A) → WhenDone P (g a))
    → WhenDone P (elim r [ err e ↦ f e | ok a ↦ g a ])
result-WhenDone (ok a) k l = l a
result-WhenDone (err e) k l = k e

option-WhenDone :
    {A B : Type 0} {P : B → Type 0} (o : Option A) {f : Outcome B} {g : A → Outcome B}
    → WhenDone P f
    → ((a : A) → WhenDone P (g a))
    → WhenDone P (elim o [ none ↦ f | some a ↦ g a ])
option-WhenDone none k l = k
option-WhenDone (some a) k l = l a

module _ {S : Type 0} (s : Scheduler S) where
  pub get_worker_metrics-Keeps : WhenDone (λ q. Keeps s q.1) (get_worker_metrics s)
  unfolding get_worker_metrics
  get_worker_metrics-Keeps = WhenDone-bind (or_panic s.worker_pool) λ p e.
      WhenDone-bind (len s.queue) λ n _.
        WhenDone-done
          (record { same_id = refl; same_detector = refl; same_workers = ground (arith, e) })

  pub distribute_tasks-Keeps : (now : Time) → WhenDone (Keeps s) (distribute_tasks now s)
  unfolding distribute_tasks
  distribute_tasks-Keeps now = elim (Bool-cases s.is_leader) [
    | inr e ↦ simp (e) (WhenDone-done (whole s))
    | inl e ↦ simp (e) (
        WhenDone-bind (len s.queue) λ n _. elim (Bool-cases (n == 0)) [
          | inl k ↦ simp (k) (WhenDone-done (whole s))
          | inr k ↦
              simp (k) (
                WhenDone-done
                  (record { same_id = refl; same_detector = refl; same_workers = refl }))
        ])
  ]

  pub check_autoscaling-Keeps : (now : Time) → WhenDone (Keeps s) (check_autoscaling now s)
  unfolding check_autoscaling
  check_autoscaling-Keeps now = elim (Bool-cases (not s.is_leader || is_cooling now s.autoscaler)) [
    | inl e ↦ simp (e) (WhenDone-done (whole s))
    | inr e ↦ simp (e) (
        WhenDone-bind (get_stats s.queue) λ stats _.
          WhenDone-bind (get_worker_metrics s) λ (m, s') k.
            let kept = get_worker_metrics-Keeps.result (m, s') k in
            option-WhenDone (decide stats.total_tasks s.max_queue_size m.worker_count s.autoscaler)
              (WhenDone-done kept)
              λ target. elim (Bool-cases (scale_workers target s'.worker_pool)) [
                | inl c ↦ simp (c) (
                    WhenDone-done (record {
                      same_id = kept.same_id;
                      same_detector = kept.same_detector;
                      same_workers = kept.same_workers;
                    }))
                | inr c ↦ simp (c) (WhenDone-done kept)
              ])
  ]

reports_lost_self :
    (self : String) (now : Time) (ns : List NodeInfo) → reports_lost self now self ns ≡ false
unfolding reports_lost is_lost
reports_lost_self self now [] = refl
reports_lost_self self now (n ∷ ns) = ground (arith, reports_lost_self self now ns)

module _ {S : Type 0} (storage : Storage S) (s : Scheduler S) where
  pub submit-Keeps : (t : Task) → WhenDone (λ q. Keeps s q.1) (submit storage t s)
  unfolding submit submit_task_internal
  submit-Keeps t = WhenDone-bind (len s.queue) λ n _. elim (Bool-cases (leb s.max_queue_size n)) [
    | inl e ↦ simp (e) (WhenDone-done (whole s))
    | inr e ↦ elim (Bool-cases s.is_leader) [
      | inr k ↦ simp (e, k) (WhenDone-done (whole s))
      | inl k ↦
          simp (e, k)
            (result-WhenDone (storage.save_task t s.world).0
              (λ e.
                WhenDone-done
                  (record { same_id = refl; same_detector = refl; same_workers = refl }))
              λ _. WhenDone-bind (add s.queue t) λ q _.
                result-WhenDone (storage.save_to_queue t (storage.save_task t s.world).1).0
                  (λ e.
                    WhenDone-done
                      (record { same_id = refl; same_detector = refl; same_workers = refl }))
                  (λ e.
                    WhenDone-done
                      (record { same_id = refl; same_detector = refl; same_workers = refl })))
    ]
  ]

  pub recovery_process-Keeps : WhenDone (Keeps s) (recovery_process storage s)
  unfolding recovery_process
  recovery_process-Keeps =
      result-WhenDone (storage.get_queue_tasks s.world).0
        (λ e. WhenDone-done (record { same_id = refl; same_detector = refl; same_workers = refl }))
        λ ts. WhenDone-bind (recover ts s.queue) λ q _.
          WhenDone-done (record { same_id = refl; same_detector = refl; same_workers = refl })

  pub reassign_failed_tasks-Keeps : WhenDone (Keeps s) (reassign_failed_tasks storage s)
  unfolding reassign_failed_tasks
  reassign_failed_tasks-Keeps = elim (Bool-cases (not s.is_leader)) [
    | inl e ↦ simp (e) (WhenDone-done (whole s))
    | inr e ↦ simp (e) (
        result-WhenDone (storage.get_tasks_by_status status_failed s.world).0
          (λ e.
            WhenDone-done (record { same_id = refl; same_detector = refl; same_workers = refl }))
          λ ts.
            WhenDone-bind
              (reassign storage ts s.queue (storage.get_tasks_by_status status_failed s.world).1)
              λ q _.
                WhenDone-done
                  (record { same_id = refl; same_detector = refl; same_workers = refl }))
  ]

  -- what the check for failures leaves of the detector's nodes
  pub record Detects (s' : Scheduler S) : Type 0 where
    pub same_id : s'.node_id ≡ s.node_id
    pub same_workers : workers_of s'.worker_pool ≡ workers_of s.worker_pool
    pub itself :
        find s.node_id s.failure_detector.failed_nodes ≡ none
        → find s.node_id s'.failure_detector.failed_nodes ≡ none

  pub check_failures-Detects : (now : Time) → WhenDone Detects (check_failures storage now s)
  unfolding check_failures
  check_failures-Detects now = WhenDone-bind (get_worker_metrics s) λ (m, s') k.
      let kept = (get_worker_metrics-Keeps s).result (m, s') k in
      result-WhenDone (storage.get_all_nodes s'.world).0
        (λ e. WhenDone-done (record {
          same_id = kept.same_id;
          same_workers = kept.same_workers;
          itself = λ n. ap (λ d. find s.node_id d.failed_nodes) kept.same_detector ∙ n;
        }))
        (λ nodes. WhenDone-done (record {
          same_id = kept.same_id;
          same_workers = kept.same_workers;
          itself = λ n.
              rw
                (
                  kept.same_id,
                  kept.same_detector,
                  find-mark_failed s.node_id now s.node_id nodes,
                  reports_lost_self s.node_id now nodes,
                )
                n;
        }))
