-- ===== src/Heap.antt =====
-- Go's container/heap, which internal/queue/priority_queue.go calls: the algorithms of the package
-- over a type that implements its interface. A method that writes returns the new state.
pub mod Order
pub mod Up
pub mod Down
pub mod Ops
use distributed_grpc_task_ma.Prelude.{
  ℕ, zero, suc, ◌+◌, ◌-◌, ◌*◌, ◌/◌, Bool, ◌&&◌, true, false, ltb, ◌==◌, if◌then◌else◌,
}
use distributed_grpc_task_ma.Prelude.Outcome.{Outcome, done, out_of_fuel, ◌>>=◌}

-- heap.Interface
pub record Interface (S X : Type 0) : Type 0 where
  pub len : S → Outcome ℕ
  pub less : S → ℕ → ℕ → Outcome Bool
  pub swap : S → ℕ → ℕ → Outcome S
  pub push : S → X → Outcome S
  pub pop : S → Outcome (X × S)

-- `(j - 1) / 2`, which is 0 at 0 in Go too
abbrev pub parent : ℕ → ℕ
parent j = (j - 1) / 2

module _ {S X : Type 0} (h : Interface S X) where
  pub up_loop : ℕ → S → ℕ → Outcome S
  up_loop zero s j = out_of_fuel
  up_loop (suc k) s j =
      let i = parent j in
      let rise = h.swap s i j >>= λ s'. up_loop k s' i in
      let test = h.less s j i >>= λ below. if below then rise else done s in
      if i == j then done s else test

  -- a round goes to a smaller index
  unfoldable pub up : S → ℕ → Outcome S
  unfolding up_loop
  up s j = up_loop (suc j) s j

  -- the child of `i` that is to be compared with it; `left < n`
  pub pick_child : S → ℕ → ℕ → Outcome ℕ
  pick_child s i n =
      let left = 2 * i + 1 in
      let right = left + 1 in
      if ltb right n
      then h.less s right left >>= (λ below. done (if below then right else left))
      else done left

  -- the state and the index where the loop stops
  pub down_loop : ℕ → S → ℕ → ℕ → Outcome (S × ℕ)
  down_loop zero s i n = out_of_fuel
  down_loop (suc k) s i n =
      let step : Outcome (S × ℕ) = do
        j ← pick_child s i n
        below ← h.less s j i
        let sink = h.swap s i j >>= λ s'. down_loop k s' j n
        if below then sink else done (s, i)
      in if ltb (2 * i + 1) n then step else done (s, i)

  -- `down` also tells whether the element moved
  unfoldable pub down : S → ℕ → ℕ → Outcome (S × Bool)
  unfolding down_loop pick_child
  down s i n = down_loop (suc n) s i n >>= λ (s', j). done (s', ltb i j)

  pub init_loop : ℕ → S → ℕ → Outcome S
  init_loop zero s n = done s
  init_loop (suc i) s n = down s i n >>= λ (s', _). init_loop i s' n

  unfoldable pub init : S → Outcome S
  unfolding init_loop down
  init s = do n ← h.len s; init_loop (n / 2) s n

  unfoldable pub push : S → X → Outcome S
  unfolding up
  push s x = do s' ← h.push s x; n ← h.len s'; up s' (n - 1)

  unfoldable pub pop : S → Outcome (X × S)
  unfolding down
  pop s = do m ← h.len s; let n = m - 1; s' ← h.swap s 0 n; (s'', _) ← down s' 0 n; h.pop s''

  -- the two calls of `down` and `up` that Remove and Fix share
  unfoldable pub settle : S → ℕ → ℕ → Outcome S
  unfolding down up
  settle s i n = down s i n >>= λ (s', moved). if moved then done s' else up s' i

  unfoldable pub remove : S → ℕ → Outcome (X × S)
  unfolding settle
  remove s i = do
    m ← h.len s
    let n = m - 1
    s'' ← if n == i then done s else h.swap s i n >>= λ s'. settle s' i n
    h.pop s''

  unfoldable pub fix : S → ℕ → Outcome S
  unfolding settle
  fix s i = do n ← h.len s; settle s i n
