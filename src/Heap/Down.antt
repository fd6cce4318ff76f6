-- ===== src/Heap/Down.antt =====
-- `down` of container/heap, and the loop of Init.
use distributed_grpc_task_ma.Prelude.{
  ℕ, zero, suc, ◌+◌, ◌-◌, ◌*◌, ◌≤◌, ◌<◌, ◌≡◌, ◌⊎◌, inl, inr, refl, Bool, true, false, arith, ltb,
}
use distributed_grpc_task_ma.Prelude.Outcome.{Yields, yields, Yields-if, Yields-bind, Yields-weaken}
use distributed_grpc_task_ma.Heap.{Interface, parent, pick_child, down_loop, down, init_loop}
use distributed_grpc_task_ma.Heap.Order.{
  IsOrder, Behaves, IsHeap, IsHeapFrom, IsUpState, IsDownState, IsOpenState, Shuffled, moved, still,
  Shuffled-size, Shuffled-trans,
}

module _ {S X K : Type 0} {h : Interface S X} {before : K → K → Bool} (o : IsOrder before)
    (b : Behaves h before) where
  open b use {size, key, exchange}

  -- `m` is the child of `i` that must leave first
  record IsFirstChild (n : ℕ) (s : S) (i m : ℕ) : Type 0 where
    inside : m < n
    child : (m ≡ 2 * i + 1) ⊎ (m ≡ 2 * i + 2)
    first : (c : ℕ) → 0 < c → c < n → parent c ≡ i → before (key s c) (key s m) ≡ false

  irrefl : (k : K) → before k k ≡ true → ⊥
  irrefl k e = ground (arith, o.asym k k)

  pick_child-IsFirstChild :
      (n : ℕ) (s : S) (i : ℕ)
      → n ≤ size s
      → 2 * i + 1 < n
      → Yields (IsFirstChild n s i) (pick_child h s i n)
  unfolding pick_child
  pick_child-IsFirstChild n s i le lt =
      let left = 2 * i + 1 in
      let right = 2 * i + 1 + 1 in
      Yields-if (ltb right n)
        (λ two. rw (b.less-done s right left (ground arith) (omega arith)) (
          yields (record {
            inside = ground arith;
            child = ground arith;
            first =
                λ c pos lt' e. ground (arith, irrefl (key s c), o.asym (key s right) (key s left));
          })))
        (λ one. yields (record {
          inside = lt;
          child = omega arith;
          first = λ c pos lt' e. ground (arith, irrefl (key s c));
        }))

  exchange-IsDownState :
      (lo n : ℕ) (s : S) (i m : ℕ)
      → n ≤ size s
      → IsDownState b lo n s i
      → IsFirstChild n s i m
      → before (key s m) (key s i) ≡ true
      → IsDownState b lo n (exchange s i m) m
  exchange-IsDownState lo n s i m le v f below =
      let at = λ (c : ℕ).
        b.key-exchange s i m c (omega (arith, f.inside, f.child)) (omega (arith, f.inside)) in
      let sunk = o.asym (key s m) (key s i) below in
      record {
        edges = λ c pos lt le' ne.
            ground (arith, f.child, at c, at (parent c), v.edges c, v.bridged m, f.first c, sunk);
        bridged = λ c pos lt e pos' le'. ground (arith, f.child, at c, at (parent m), v.edges c);
      }

  down_loop_restores :
      (k lo n : ℕ) (s : S) (i : ℕ)
      → n - i < k
      → n ≤ size s
      → IsDownState b lo n s i
      → Yields (λ r. IsHeapFrom b lo n r.0 × Shuffled b n s r.0 × (i ≤ r.1)) (down_loop h k s i n)
  unfolding down_loop
  down_loop_restores zero lo n s i f le v = absurd (omega arith)
  down_loop_restores (suc k) lo n s i f le v =
      Yields-if (ltb (2 * i + 1) n)
        (λ e. Yields-bind (pick_child-IsFirstChild n s i le (ground arith)) λ m c.
          let hm : m < size s = omega (arith, c.inside) in
          let hi : i < size s = omega (arith, c.inside, c.child) in
          rw (b.less-done s m i hm hi) (
            Yields-if (before (key s m) (key s i))
              (λ below. rw (b.swap-done s i m hi hm) (
                Yields-weaken
                  (down_loop_restores k lo n (exchange s i m) m (omega (arith, c.inside, c.child))
                    (omega (arith, b.size-exchange s i m))
                    (exchange-IsDownState lo n s i m le v c below))
                  λ r t. (
                    t.0,
                    moved i m (omega (arith, c.inside, c.child)) c.inside t.1,
                    omega (arith, t.2, c.child),
                  )))
              (λ settled. yields (
                λ d pos lt le'.
                    ground (arith, v.edges d, c.first d, o.trans (key s i) (key s m) (key s d)),
                still,
                omega arith,
              ))))
        (λ e. yields (λ d pos lt le'. ground (arith, v.edges d), still, omega arith))

  -- `down` puts the edges from `lo` on in order, among the first `n` elements, if only those
  -- below `i` were out of order.
  pub down_restores :
      (lo n : ℕ) (s : S) (i : ℕ)
      → n ≤ size s
      → IsDownState b lo n s i
      → Yields (λ r. IsHeapFrom b lo n r.0 × Shuffled b n s r.0) (down h s i n)
  unfolding down
  down_restores lo n s i le v =
      Yields-bind (down_loop_restores (suc n) lo n s i (omega arith) le v) λ r t. yields (t.0, t.1)

  -- each round of Init extends the ordered part of the tree by one parent
  pub init_loop_orders :
      (i n : ℕ) (s : S)
      → n ≤ size s
      → IsHeapFrom b i n s
      → Yields (λ s'. IsHeap b n s' × Shuffled b n s s') (init_loop h i s n)
  unfolding init_loop
  init_loop_orders zero n s le v = yields (v, still)
  init_loop_orders (suc i) n s le v =
      Yields-bind
        (down_restores i n s i le (record {
          edges = λ c pos lt le' ne. v c pos lt (omega arith);
          bridged = λ c pos lt e pos' le'. absurd (omega arith);
        }))
        λ r t.
          Yields-weaken (init_loop_orders i n r.0 (omega (arith, Shuffled-size b t.1)) t.0)
            λ s' u. (u.0, Shuffled-trans b t.1 u.1)

  -- how `down` leaves an open state: it stays, and only the edge above `i` may be bad, or the element
  -- went down and the elements are a heap
  abbrev pub Settled : ℕ → S → ℕ → S × Bool → Type 0
  Settled n s i r =
      ((r.1 ≡ false) × (r.0 ≡ s) × IsUpState b n s i)
      ⊎ ((r.1 ≡ true) × IsHeap b n r.0 × Shuffled b n s r.0)

  open-IsDownState :
      (n : ℕ) (s : S) (i m : ℕ)
      → n ≤ size s
      → IsOpenState b n s i
      → IsFirstChild n s i m
      → before (key s m) (key s i) ≡ true
      → IsDownState b 0 n (exchange s i m) m
  open-IsDownState n s i m le v f below =
      let at = λ (c : ℕ).
        b.key-exchange s i m c (omega (arith, f.inside, f.child)) (omega (arith, f.inside)) in
      let sunk = o.asym (key s m) (key s i) below in
      record {
        edges = λ c pos lt le' ne.
            ground (arith, f.child, at c, at (parent c), v.edges c, v.bridged m, f.first c, sunk);
        bridged = λ c pos lt e pos' le'. ground (arith, f.child, at c, at (parent m), v.edges c);
      }

  -- the same, with the index where the loop stops
  abbrev Parted : ℕ → S → ℕ → S × ℕ → Type 0
  Parted n s i r =
      ((r.1 ≡ i) × (r.0 ≡ s) × IsUpState b n s i)
      ⊎ ((i < r.1) × IsHeap b n r.0 × Shuffled b n s r.0)

  down_loop_parts :
      (k n : ℕ) (s : S) (i : ℕ)
      → n - i < suc k
      → n ≤ size s
      → IsOpenState b n s i
      → Yields (Parted n s i) (down_loop h (suc k) s i n)
  unfolding down_loop
  down_loop_parts k n s i f le v =
      Yields-if (ltb (2 * i + 1) n)
        (λ e. Yields-bind (pick_child-IsFirstChild n s i le (ground arith)) λ m c.
          let hm : m < size s = omega (arith, c.inside) in
          let hi : i < size s = omega (arith, c.inside, c.child) in
          rw (b.less-done s m i hm hi) (
            Yields-if (before (key s m) (key s i))
              (λ below. rw (b.swap-done s i m hi hm) (
                Yields-weaken
                  (down_loop_restores k 0 n (exchange s i m) m (omega (arith, c.inside, c.child))
                    (omega (arith, b.size-exchange s i m)) (open-IsDownState n s i m le v c below))
                  λ r t. inr (
                    omega (arith, t.2, c.child),
                    t.0,
                    moved i m (omega (arith, c.inside, c.child)) c.inside t.1,
                  )))
              (λ settled. yields (
                inl (
                  refl,
                  refl,
                  record {
                    inside = v.inside;
                    edges = λ d pos lt ne.
                        ground (arith, v.edges d, c.first d, o.trans (key s i) (key s m) (key s d));
                    bridged = v.bridged;
                  },
                )))))
        (λ e. yields (
          inl (
            refl,
            refl,
            record {
              inside = v.inside;
              edges = λ d pos lt ne. ground (arith, v.edges d);
              bridged = v.bridged;
            },
          )))

  pub down_settles :
      (n : ℕ) (s : S) (i : ℕ)
      → n ≤ size s
      → IsOpenState b n s i
      → Yields (Settled n s i) (down h s i n)
  unfolding down
  down_settles n s i le v =
      Yields-bind (down_loop_parts n n s i (omega arith) le v) λ r t. yields (ground arith)
