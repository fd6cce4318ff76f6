-- ===== src/Scheduler/Shutdown.antt =====
-- Whether Stop of the pool returns.
use distributed_grpc_task_ma.Prelude.{
  ℕ, zero, suc, ◌<◌, ◌≡◌, ◌≢◌, refl, ap, ◌∙◌, String, Bool, true, false, List, [], ◌∷◌, Option,
  none, some, get_elem?, set, length, ◌==◌, if◌then◌else◌, arith, inl, inr, ◌⊎◌, Option-cases,
}
use distributed_grpc_task_ma.Prelude.Outcome.{Outcome, done, panics, hangs, out_of_fuel}
use distributed_grpc_task_ma.Queue.{PriorityQueue, unlocked, locked}
use distributed_grpc_task_ma.Worker.{TaskProcessor, TaskStorage, Site, turn}
use distributed_grpc_task_ma.Scheduler.{task_queue}
use distributed_grpc_task_ma.Scheduler.Stalls.{turn-hangs, turn-waits}
use distributed_grpc_task_ma.Scheduler.Crew.{
  Activity, running, stopped, stuck, Member, Crew, Turn, returned, take_turn, take_turns,
  all_stopped, stop_pool,
}

abbrev pub activity_at : List Member → ℕ → Option Activity
activity_at [] j = none
activity_at (m ∷ ms) zero = some m.activity
activity_at (m ∷ ms) (suc j) = activity_at ms j

pub Activity-cases : (a : Activity) → (a ≡ running) ⊎ (a ≢ running)
Activity-cases running = inl refl
Activity-cases stopped = inr (λ e. ground (arith))
Activity-cases stuck = inr (λ e. ground (arith))

-- the activity that is put in the place of another
abbrev pub replaced : Activity → Option Activity → Option Activity
replaced a none = none
replaced a (some b) = some a

pub activity_at-set :
    (ms : List Member) (i j : ℕ) (m : Member)
    → activity_at (set ms i m) j
      ≡ (if i == j then replaced m.activity (activity_at ms j) else activity_at ms j)
activity_at-set [] i j m = ground (arith)
activity_at-set (x ∷ ms) zero zero m = refl
activity_at-set (x ∷ ms) zero (suc j) m = ground (arith)
activity_at-set (x ∷ ms) (suc i) zero m = ground (arith)
activity_at-set (x ∷ ms) (suc i) (suc j) m = ground (arith, activity_at-set ms i j m)

pub activity_at-get :
    (ms : List Member) (i : ℕ) (m : Member)
    → get_elem? ms i ≡ some m
    → activity_at ms i ≡ some m.activity
activity_at-get [] i m e = absurd (ground (arith))
activity_at-get (x ∷ ms) zero m e = ground (arith)
activity_at-get (x ∷ ms) (suc i) m e = activity_at-get ms i m e

pub member_at :
    (ms : List Member) (i : ℕ) (a : Activity)
    → activity_at ms i ≡ some a
    → (m : Member) × (get_elem? ms i ≡ some m) × (m.activity ≡ a)
member_at [] i a e = absurd (ground (arith))
member_at (x ∷ ms) zero a e = (x, refl, ground (arith))
member_at (x ∷ ms) (suc i) a e = member_at ms i a e

all_stopped-stuck :
    (ms : List Member) (j : ℕ) → activity_at ms j ≡ some stuck → all_stopped ms ≡ false
unfolding all_stopped
all_stopped-stuck [] j e = absurd (ground (arith))
all_stopped-stuck (m ∷ ms) zero e = ground (arith)
all_stopped-stuck (m ∷ ms) (suc j) e = ground (arith, all_stopped-stuck ms j e)

pub all_stopped-running :
    (ms : List Member) (j : ℕ) → activity_at ms j ≡ some running → all_stopped ms ≡ false
unfolding all_stopped
all_stopped-running [] j e = absurd (ground (arith))
all_stopped-running (m ∷ ms) zero e = ground (arith)
all_stopped-running (m ∷ ms) (suc j) e = ground (arith, all_stopped-running ms j e)

-- the queue has a task, or a call that does not return holds its lock
abbrev pub Detains : PriorityQueue → Type 0
Detains q = (q.mu ≡ locked) ⊎ ((q.mu ≡ unlocked) × (0 < length q.items))

module _ {S : Type 0} where
  -- a turn of a member leaves one that is stuck as it is, whatever the turn comes to
  returned-stuck :
      (i j : ℕ) (m : Member) (r : Outcome (Bool × Site S × PriorityQueue)) (c : Crew S)
      → activity_at c.members i ≡ some running
      → activity_at c.members j ≡ some stuck
      → activity_at (returned i m r c).members j ≡ some stuck
  unfolding returned
  returned-stuck i j m (done (goes_on, site, q)) c e k = ground (
    arith,
    activity_at-set c.members i j
        (record { worker = site.worker; activity = if goes_on then running else stopped }),
  )
  returned-stuck i j m hangs c e k =
      ground (arith, activity_at-set c.members i j (record m { activity = stuck }))
  returned-stuck i j m panics c e k =
      ground (arith, activity_at-set c.members i j (record m { activity = stuck }))
  returned-stuck i j m out_of_fuel c e k =
      ground (arith, activity_at-set c.members i j (record m { activity = stuck }))

  module _ (decimal : ℕ → String) (processor : TaskProcessor S) (storage : TaskStorage S) where
    abbrev pub turned : Turn → Member → Crew S → Outcome (Bool × Site S × PriorityQueue)
    turned t m c =
        turn decimal processor storage task_queue c.cancelled t.started t.finished
          (record { worker = m.worker; metrics = c.metrics; world = c.world }) c.queue

    -- what take_turn does at a member that is running
    pub take_turn-running :
        (t : Turn) (c : Crew S) (m : Member)
        → get_elem? c.members t.index ≡ some m
        → m.activity ≡ running
        → take_turn decimal processor storage t c ≡ returned t.index m (turned t m c) c
    unfolding take_turn
    take_turn-running t c m e a = rw (e, take_turn, a) refl

    pub take_turn-absent :
        (t : Turn) (c : Crew S)
        → get_elem? c.members t.index ≡ none
        → take_turn decimal processor storage t c ≡ c
    unfolding take_turn
    take_turn-absent t c e = rw (e, take_turn) refl

    pub take_turn-idle :
        (t : Turn) (c : Crew S) (m : Member)
        → get_elem? c.members t.index ≡ some m
        → m.activity ≢ running
        → take_turn decimal processor storage t c ≡ c
    unfolding take_turn
    take_turn-idle t c m e a = ground (arith)

    take_turn-stuck :
        (t : Turn) (c : Crew S) (j : ℕ)
        → activity_at c.members j ≡ some stuck
        → activity_at (take_turn decimal processor storage t c).members j ≡ some stuck
    unfolding take_turn
    take_turn-stuck t c j k = elim (Option-cases (get_elem? c.members t.index)) [
      | inl e ↦ rw (take_turn-absent t c e) k
      | inr (m, e) ↦ elim (Activity-cases m.activity) [
        | inl a ↦ rw (take_turn-running t c m e a) (
            returned-stuck t.index j m (turned t m c) c
              (activity_at-get c.members t.index m e ∙ ap some a) k)
        | inr idle ↦ rw (take_turn-idle t c m e idle) k
      ]
    ]

    take_turns-stuck :
        (ts : List Turn) (c : Crew S) (j : ℕ)
        → activity_at c.members j ≡ some stuck
        → activity_at (take_turns decimal processor storage ts c).members j ≡ some stuck
    unfolding take_turns
    take_turns-stuck [] c j k = k
    take_turns-stuck (t ∷ ts) c j k =
        take_turns-stuck ts (take_turn decimal processor storage t c) j (take_turn-stuck t c j k)

    -- a running member that comes to such a queue is stuck
    turned-hangs :
        (t : Turn) (m : Member) (c : Crew S)
        → c.cancelled ≡ false
        → Detains c.queue
        → turned t m c ≡ hangs
    turned-hangs t m c live (inl held) =
        rw (live) (turn-waits decimal processor storage t.started t.finished _ c.queue held)
    turned-hangs t m c live (inr (free, some_left)) =
        turn-hangs decimal processor storage c.cancelled t.started t.finished _ c.queue free
        ∙ ground (arith)

    take_turn-meets :
        (t : Turn) (c : Crew S)
        → activity_at c.members t.index ≡ some running
        → c.cancelled ≡ false
        → Detains c.queue
        → activity_at (take_turn decimal processor storage t c).members t.index ≡ some stuck
    unfolding returned
    take_turn-meets t c a live d =
        let (m, e, r) = member_at c.members t.index running a in
        rw (take_turn-running t c m e r, turned-hangs t m c live d)
          (ground
            (arith, activity_at-set c.members t.index t.index (record m { activity = stuck })))

    -- Stop waits for a member that is stuck
    pub stop_pool-none :
        (during : List Turn) (c : Crew S) (j : ℕ)
        → activity_at c.members j ≡ some stuck
        → stop_pool decimal processor storage during c ≡ none
    unfolding stop_pool
    stop_pool-none during c j k =
        rw (all_stopped-stuck _ j (take_turns-stuck during (record c { cancelled = true }) j k))
          refl

    -- Once a worker that was not stopped has come to a queue that has a task, or whose lock a call that does
    -- not return holds, Stop of the pool never returns, whatever turns the workers take before it is
    -- called and while it waits.
    pub stop_pool-stuck :
        (t : Turn) (c : Crew S) (before during : List Turn)
        → activity_at c.members t.index ≡ some running
        → c.cancelled ≡ false
        → Detains c.queue
        → stop_pool decimal processor storage during
            (take_turns decimal processor storage before (take_turn decimal processor storage t c))
          ≡ none
    stop_pool-stuck t c before during live running_still d = stop_pool-none during _ t.index (
        take_turns-stuck before (take_turn decimal processor storage t c) t.index
          (take_turn-meets t c live running_still d))
