-- ===== src/Scheduler/Returns.antt =====
-- Calls of a scheduler that return, and those that do not, at the queue of the program.
use distributed_grpc_task_ma.Prelude.{
  ◌≡◌, ◌≢◌, refl, Bool, true, none, leb, length, not, arith, Option-cases, Bool-cases, inl, inr,
  if◌then◌else◌,
}
use distributed_grpc_task_ma.Prelude.Effects.{Error, new, wrap, ok, err, Result-cases}
use distributed_grpc_task_ma.Prelude.Outcome.{done, hangs, Yields, yields}
use distributed_grpc_task_ma.Types.{Task}
use distributed_grpc_task_ma.Queue.{locked}
use distributed_grpc_task_ma.Queue.Locking.{add-hangs}
use distributed_grpc_task_ma.Queue.Linked.{tasks}
use distributed_grpc_task_ma.Queue.Stats.{len_lem, get_stats_lem}
use distributed_grpc_task_ma.Storage.{Storage}
use distributed_grpc_task_ma.Scheduler.{Scheduler, submit, submit_task_internal, get_worker_metrics}
use distributed_grpc_task_ma.Scheduler.Queries

-- what a task that is submitted comes to, before it is stored and after
abbrev pub refusal : {S : Type 0} → Scheduler S → Error
refusal s =
    if leb s.max_queue_size (length (tasks s.queue))
    then new "queue is full, cannot accept new tasks"
    else new "only leader can submit tasks"

abbrev pub is_refused : {S : Type 0} → Scheduler S → Bool
is_refused s = if leb s.max_queue_size (length (tasks s.queue)) then true else not s.is_leader

module _ {S : Type 0} (storage : Storage S) where
  submit_task_internal-hangs :
      (t : Task) (s : Scheduler S)
      → submit_task_internal storage t s ≡ (elim (storage.save_task t s.world).0 [
        | err e ↦ done (
          err (wrap "failed to save task" e),
          record s { world = (storage.save_task t s.world).1 },
        )
        | ok u ↦ hangs
      ])
  unfolding submit_task_internal
  submit_task_internal-hangs t s = elim (Result-cases (storage.save_task t s.world).0) [
    | inl (u, e) ↦ rw (e, submit_task_internal, add-hangs s.queue t) refl
    | inr (x, e) ↦ rw (e, submit_task_internal) refl
  ]

  -- A task is refused where the queue is full or the scheduler does not lead, or else if the storage does
  -- not take it; if it does, the call never returns.
  pub submit-hangs :
      (t : Task) (s : Scheduler S)
      → s.queue.mu ≢ locked
      → submit storage t s ≡ (
          if is_refused s then done (err (refusal s), s) else elim (storage.save_task t s.world).0 [
            | err e ↦ done (
              err (wrap "failed to save task" e),
              record s { world = (storage.save_task t s.world).1 },
            )
            | ok u ↦ hangs
          ])
  unfolding submit
  submit-hangs t s free =
      rw (submit, len_lem s.queue free, submit_task_internal-hangs t s)
        (elim (Bool-cases (leb s.max_queue_size (length (tasks s.queue)))) [
          | inl e ↦ rw (e) refl
          | inr e ↦ elim (Bool-cases s.is_leader) [
            | inl k ↦ simp (e, k) refl
            | inr k ↦ simp (e, k) refl
          ]
        ])

-- a scheduler that was started, whose queue no writer holds
pub record IsReady {S : Type 0} (s : Scheduler S) : Type 0 where
  pub free : s.queue.mu ≢ locked
  pub started : s.worker_pool ≢ none

module _ {S : Type 0} where
  pub get_worker_metrics-returns :
      (s : Scheduler S)
      → IsReady s
      → Yields (λ q. IsReady q.1 × (q.1.is_leader ≡ s.is_leader)) (get_worker_metrics s)
  unfolding get_worker_metrics
  get_worker_metrics-returns s h = elim (Option-cases s.worker_pool) [
    | inl e ↦ elim (h.started e) [ ]
    | inr (p, e) ↦
        rw (e, len_lem s.queue h.free)
          (yields (record { free = h.free; started = λ k. ground (arith) }, refl))
  ]

  pub get_queue_stats-returns :
      (s : Scheduler S) → IsReady s → Yields (λ _. Unit {0}) (Queries.get_queue_stats s)
  unfolding Queries.get_queue_stats
  get_queue_stats-returns s h = rw (get_stats_lem s.queue h.free) (yields tt)
