-- ===== src/Scheduler/Stopping.antt =====
-- Stop of the pool where no worker waits for ever: what the workers do once the context is cancelled.
use distributed_grpc_task_ma.Prelude.{
  ℕ, suc, ◌≡◌, ◌≢◌, refl, sym, ap, ◌∙◌, String, Bool, true, false, ◌||◌, List, [], ◌∷◌, Option,
  none, some, get_elem?, ◌==◌, arith, inl, inr, Option-cases, Bool-cases,
}
use distributed_grpc_task_ma.Prelude.Outcome.{done}
use distributed_grpc_task_ma.Worker.{TaskProcessor, TaskStorage, turn}
use distributed_grpc_task_ma.Scheduler.Crew.{
  Activity, running, stopped, stuck, Member, Crew, Turn, returned, take_turn, take_turns,
  all_stopped, stop_pool,
}
use distributed_grpc_task_ma.Scheduler.Shutdown.{
  stop_pool-none, all_stopped-running, activity_at, activity_at-set, activity_at-get, member_at,
  Activity-cases, turned, take_turn-running, take_turn-absent, take_turn-idle,
}

-- whether the member takes a turn
unfoldable pub takes_turn : ℕ → List Turn → Bool
takes_turn j [] = false
takes_turn j (t ∷ ts) = let rest = takes_turn j ts in t.index == j || rest

-- the activity after a turn, once the context is cancelled
abbrev halted : Bool → Option Activity → Option Activity
halted false a = a
halted true none = none
halted true (some running) = some stopped
halted true (some stopped) = some stopped
halted true (some stuck) = some stuck

halted-halted : (a b : Bool) (o : Option Activity) → halted b (halted a o) ≡ halted (a || b) o
halted-halted false b o = refl
halted-halted true true none = refl
halted-halted true true (some running) = refl
halted-halted true true (some stopped) = refl
halted-halted true true (some stuck) = refl
halted-halted true false o = refl

halted_idle : (o : Option Activity) → o ≢ some running → halted true o ≡ o
halted_idle none n = refl
halted_idle (some running) n = absurd (n refl)
halted_idle (some stopped) n = refl
halted_idle (some stuck) n = refl

halted_other :
    (i j : ℕ) (f : ℕ → Option Activity) → f i ≢ some running → f j ≡ halted (i == j) (f j)
halted_other i j f n = elim (Bool-cases (i == j)) [
  | inl e ↦ let same : i ≡ j = ground (arith) in rw (e) (sym (halted_idle (f j) (rw (same) at n)))
  | inr e ↦ rw (e) refl
]

all_stopped_lem :
    (ms : List Member)
    → ((j : ℕ) (a : Activity) → activity_at ms j ≡ some a → a ≡ stopped)
    → all_stopped ms ≡ true
unfolding all_stopped
all_stopped_lem [] h = refl
all_stopped_lem (m ∷ ms) h = ground (
  arith,
  h 0 m.activity refl,
  all_stopped_lem ms λ (j : ℕ) (a : Activity) (e : activity_at ms j ≡ some a). h (suc j) a e,
)

-- a member that took a turn and did not wait for ever has returned
halted_stopped :
    (turns : Bool) (o : Option Activity) (a : Activity)
    → (o ≡ some running → turns ≡ true)
    → o ≢ some stuck
    → halted turns o ≡ some a
    → a ≡ stopped
halted_stopped turns none a k n e = ground (arith)
halted_stopped turns (some running) a k n e = ground (arith, k refl)
halted_stopped turns (some stopped) a k n e = ground (arith)
halted_stopped turns (some stuck) a k n e = absurd (n refl)

-- no member waits for ever, and each that is running takes a turn
abbrev pub Finish : List Member → List Turn → Type 0
Finish ms during =
    (j : ℕ)
    → (activity_at ms j ≢ some stuck)
      × (activity_at ms j ≡ some running → takes_turn j during ≡ true)

-- what cancelled workers leave alone
pub record Leaves {S : Type 0} (c d : Crew S) : Type 0 where
  pub cancelled : d.cancelled ≡ c.cancelled
  pub queue : d.queue ≡ c.queue
  pub metrics : d.metrics ≡ c.metrics
  pub world : d.world ≡ c.world

module _ {S : Type 0} (decimal : ℕ → String) (processor : TaskProcessor S)
    (storage : TaskStorage S) where
  record Halts (t : Turn) (c d : Crew S) : Type 0 where
    leaves : Leaves c d
    activity : (j : ℕ) → activity_at d.members j ≡ halted (t.index == j) (activity_at c.members j)

  turned-cancelled :
      (t : Turn) (c : Crew S) (m : Member)
      → c.cancelled ≡ true
      → turned decimal processor storage t m c
        ≡ done (false, record { worker = m.worker; metrics = c.metrics; world = c.world }, c.queue)
  unfolding turn
  turned-cancelled t c m e = rw (e) refl

  returned-Halts :
      (t : Turn) (c : Crew S) (m : Member)
      → get_elem? c.members t.index ≡ some m
      → m.activity ≡ running
      → Halts t c (
          returned t.index m
            (done
              (false, record { worker = m.worker; metrics = c.metrics; world = c.world }, c.queue))
            c)
  unfolding returned
  returned-Halts t c m e a = record {
    leaves = record { cancelled = refl; queue = refl; metrics = refl; world = refl };
    activity = λ j. ground (
      arith,
      activity_at-get c.members t.index m e,
      activity_at-set c.members t.index j (record { worker = m.worker; activity = stopped }),
    );
  }

  idle-Halts : (t : Turn) (c : Crew S) → activity_at c.members t.index ≢ some running → Halts t c c
  idle-Halts t c n = record {
    leaves = record { cancelled = refl; queue = refl; metrics = refl; world = refl };
    activity = λ j. halted_other t.index j (activity_at c.members) n;
  }

  take_turn-Halts :
      (t : Turn) (c : Crew S)
      → c.cancelled ≡ true
      → Halts t c (take_turn decimal processor storage t c)
  take_turn-Halts t c e = elim (Option-cases (get_elem? c.members t.index)) [
    | inl k ↦ rw (take_turn-absent decimal processor storage t c k) (
        idle-Halts t c
          λ a. let (m, e', r) = member_at c.members t.index running a in ground (arith))
    | inr (m, k) ↦ elim (Activity-cases m.activity) [
      | inl a ↦
          rw (take_turn-running decimal processor storage t c m k a, turned-cancelled t c m e)
            (returned-Halts t c m k a)
      | inr idle ↦
          rw (take_turn-idle decimal processor storage t c m k idle)
            (idle-Halts t c λ a. idle (ground (arith, activity_at-get c.members t.index m k)))
    ]
  ]

  take_turns-Halts :
      (ts : List Turn) (c : Crew S)
      → c.cancelled ≡ true
      → let d = take_turns decimal processor storage ts c in
        Leaves c d
        × ((j : ℕ) → activity_at d.members j ≡ halted (takes_turn j ts) (activity_at c.members j))
  unfolding take_turns takes_turn
  take_turns-Halts [] c e =
      (record { cancelled = refl; queue = refl; metrics = refl; world = refl }, λ j. refl)
  take_turns-Halts (t ∷ ts) c e =
      let h = take_turn-Halts t c e in
      let (l, a) =
        take_turns-Halts ts (take_turn decimal processor storage t c) (h.leaves.cancelled ∙ e) in
      (
        record {
          cancelled = l.cancelled ∙ h.leaves.cancelled;
          queue = l.queue ∙ h.leaves.queue;
          metrics = l.metrics ∙ h.leaves.metrics;
          world = l.world ∙ h.leaves.world;
        },
        λ j.
            a j
            ∙ ap (halted (takes_turn j ts)) (h.activity j)
            ∙ halted-halted (t.index == j) (takes_turn j ts) (activity_at c.members j),
      )

  -- If no worker waits for ever and each that is running takes a turn once Stop of the pool has cancelled
  -- the context, then Stop returns, and since then no task has left the queue, and the counters and the
  -- storage are as they were.
  pub stop_pool-returns :
      (c : Crew S) (during : List Turn)
      → Finish c.members during
      → (d : Crew S) × (stop_pool decimal processor storage during c ≡ some d)
        × Leaves (record c { cancelled = true }) d
  unfolding stop_pool
  stop_pool-returns c during finish =
      let c' = record c { cancelled = true } in
      let d = take_turns decimal processor storage during c' in
      let (l, h) = take_turns-Halts during c' refl in
      let over : all_stopped d.members ≡ true = all_stopped_lem d.members λ j a e.
        halted_stopped (takes_turn j during) (activity_at c.members j) a (finish j).1 (finish j).0
          (sym (h j) ∙ e) in
      (d, rw (over) refl, l)

  -- Stop of the pool returns only so.
  pub stop_pool-Finish :
      (c : Crew S) (during : List Turn)
      → stop_pool decimal processor storage during c ≢ none
      → Finish c.members during
  unfolding stop_pool
  stop_pool-Finish c during n j = (
    λ k. n (stop_pool-none decimal processor storage during c j k),
    λ k. elim (Bool-cases (takes_turn j during)) [
      | inl t ↦ t
      | inr t ↦
          let c' = record c { cancelled = true } in
          let (l, h) = take_turns-Halts during c' refl in
          let on : activity_at (take_turns decimal processor storage during c').members j
              ≡ some running =
            rw (h j, k, t) refl in
          absurd (n (rw (all_stopped-running _ j on) refl))
    ],
  )
