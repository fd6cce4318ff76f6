-- ===== src/Scheduler/Stalls.antt =====
-- A scheduler with the queue as it is: Add of the queue never returns, and Remove returns only if the
-- queue is empty.
use distributed_grpc_task_ma.Prelude.{
  ◌≡◌, ◌≢◌, refl, ap, String, Bool, List, [], ◌∷◌, ℕ, eqb_ℤ, length, ◌==◌, if◌then◌else◌, arith,
  ◌||◌, false, true, none, Bool-cases, inl, inr,
}
use distributed_grpc_task_ma.Prelude.Effects.{ok}
use distributed_grpc_task_ma.Prelude.Outcome.{
  done, hangs, WhenDone, WhenDone-bind, WhenDone-done, WhenDone-never,
}
use distributed_grpc_task_ma.Types.{Task, Time, Priority, status_pending, new_task}
use distributed_grpc_task_ma.Storage.{Storage}
use distributed_grpc_task_ma.Queue.{
  Mutex, read_locked, locked, remove, PriorityQueue, unlocked, len,
}
use distributed_grpc_task_ma.Queue.Locking.{add-hangs, remove-hangs}
use distributed_grpc_task_ma.Worker.Rounds.{Round}
use distributed_grpc_task_ma.Worker.{TaskProcessor, TaskStorage, Site, turn}
use distributed_grpc_task_ma.Scheduler.{
  Scheduler, task_queue, submit, submit_task_internal, submit_task,
}
use distributed_grpc_task_ma.Scheduler.Duties.{recover, recovery_process}

module _ {S : Type 0} (storage : Storage S) where
  submit-accepts : (t u : Task) (s s' : Scheduler S) → submit storage t s ≢ done (ok u, s')
  unfolding submit submit_task_internal len
  submit-accepts t u s s' e = ground (arith, add-hangs s.queue t)

  -- No call of SubmitTask returns a task.
  pub submit_task-accepts :
      (id : String) (now : Time) (p : Priority) (payload : List ℕ) (t : Task) (s s' : Scheduler S)
      → submit_task storage id now p payload s ≢ done (ok t, s')
  unfolding submit_task
  submit_task-accepts id now p payload t s s' = submit-accepts (new_task id now p payload) t s s'

abbrev pub any_pending : List Task → Bool
any_pending [] = false
any_pending (t ∷ ts) = eqb_ℤ t.status status_pending || any_pending ts

recover-hangs :
    (ts : List Task) (q : PriorityQueue) → recover ts q ≡ (if any_pending ts then hangs else done q)
unfolding recover
recover-hangs [] q = refl
recover-hangs (t ∷ ts) q = ground (arith, add-hangs q t, recover-hangs ts q)

-- If the storage gives the tasks of the queue, the recovery returns exactly if none of them is pending,
-- and then leaves the queue as it was; if one is, it never returns.
pub recovery_process-hangs :
    {S : Type 0} (storage : Storage S) (s : Scheduler S) (ts : List Task) (w : S)
    → storage.get_queue_tasks s.world ≡ (ok ts, w)
    → recovery_process storage s ≡ (if any_pending ts then hangs else done (record s { world = w }))
unfolding recovery_process
recovery_process-hangs storage s ts w e = elim (Bool-cases (any_pending ts)) [
  | inl k ↦ rw (e, recovery_process, recover-hangs ts s.queue, k) refl
  | inr k ↦
      rw (e, recovery_process, recover-hangs ts s.queue, k)
        (ap (λ o. done (record s { world = o.1 })) e)
]

-- A turn of a worker at a free queue that is not empty never returns, unless the worker was stopped; at
-- an empty queue it changes nothing and the worker goes on.
pub turn-hangs :
    {S : Type 0} (decimal : ℕ → String) (processor : TaskProcessor S) (storage : TaskStorage S)
    (cancelled : Bool) (started finished : Time) (site : Site S) (q : PriorityQueue)
    → q.mu ≡ unlocked
    → turn decimal processor storage task_queue cancelled started finished site q ≡ (
        if cancelled
        then done (false, site, q)
        else if length q.items == 0
        then done (true, site, q)
        else hangs)
unfolding turn
turn-hangs decimal processor storage cancelled started finished site q e =
    ground (arith, remove-hangs q e)

-- A turn of a worker that was not stopped never returns where a call that does not return holds the lock
-- of the queue.
pub turn-waits :
    {S : Type 0} (decimal : ℕ → String) (processor : TaskProcessor S) (storage : TaskStorage S)
    (started finished : Time) (site : Site S) (q : PriorityQueue)
    → q.mu ≡ locked
    → turn decimal processor storage task_queue false started finished site q ≡ hangs
unfolding turn remove
turn-waits decimal processor storage started finished site q e = rw (turn, remove, e) refl

-- what Remove comes to, if it returns
remove-returns :
    (q : PriorityQueue) (m : Mutex)
    → q.mu ≡ m
    → WhenDone (λ (t, q'). (t ≡ none) × (q' ≡ q)) (remove q)
unfolding remove
remove-returns q unlocked e = elim (Bool-cases (length q.items == 0)) [
  | inl k ↦ rw (remove-hangs q e, k) (WhenDone-done (refl, refl))
  | inr k ↦ rw (remove-hangs q e, k) (WhenDone-never hangs λ a n. ground (arith))
]
remove-returns q locked e = rw (remove, e) (WhenDone-never hangs λ a n. ground (arith))
remove-returns q (read_locked n) e = rw (remove, e) (WhenDone-never hangs λ a n. ground (arith))

-- no round, or one that finds the context cancelled
abbrev pub ends_first : List Round → Bool
ends_first [] = true
ends_first (r ∷ rest) = r.cancelled

module _ {S : Type 0} (decimal : ℕ → String) (processor : TaskProcessor S)
    (storage : TaskStorage S) where
  pub turn-returns :
      (cancelled : Bool) (started finished : Time) (site : Site S) (q : PriorityQueue)
      → WhenDone
          (λ (goes_on, site', q'). (site' ≡ site) × (q' ≡ q))
          (turn decimal processor storage task_queue cancelled started finished site q)
  unfolding turn
  turn-returns true started finished site q = WhenDone-done (refl, refl)
  turn-returns false started finished site q = WhenDone-bind (remove q) λ (t, q') k.
      let (e, e') = (remove-returns q q.mu refl).result (t, q') k in
      rw (e) (WhenDone-done (refl, e'))
