-- ===== src/Heap/Up.antt =====
-- `up` of container/heap.
use distributed_grpc_task_ma.Prelude.{ℕ, zero, suc, ◌≤◌, ◌<◌, ◌≡◌, ◌≢◌, Bool, true, arith, ◌==◌}
use distributed_grpc_task_ma.Prelude.Outcome.{Yields, yields, Yields-if, Yields-weaken}
use distributed_grpc_task_ma.Heap.{Interface, parent, up_loop, up}
use distributed_grpc_task_ma.Heap.Order.{
  IsOrder, Behaves, IsHeap, IsUpState, Shuffled, moved, still,
}

module _ {S X K : Type 0} {h : Interface S X} {before : K → K → Bool} (o : IsOrder before)
    (b : Behaves h before) where
  open b use {size, key, exchange}

  exchange-IsUpState :
      (n : ℕ) (s : S) (i : ℕ)
      → n ≤ size s
      → IsUpState b n s i
      → i ≢ parent i
      → before (key s i) (key s (parent i)) ≡ true
      → IsUpState b n (exchange s (parent i) i) (parent i)
  exchange-IsUpState n s i le v ne below =
      let at = b.key-exchange s (parent i) i in
      let p = parent i in
      let risen = o.asym (key s i) (key s p) below in
      record {
        inside = omega (arith, v.inside);
        edges = λ c pos lt ne'. ground (
          arith,
          at c,
          at (parent c),
          v.edges c,
          v.bridged c,
          risen,
          o.trans (key s i) (key s p) (key s c),
        );
        bridged = λ c pos lt e pos' _. ground (
          arith,
          at c,
          at (parent p),
          v.edges c,
          v.edges p,
          o.trans (key s (parent p)) (key s p) (key s c),
        );
      }

  up_loop_restores :
      (k n : ℕ) (s : S) (i : ℕ)
      → i < k
      → n ≤ size s
      → IsUpState b n s i
      → Yields (λ s'. IsHeap b n s' × Shuffled b n s s') (up_loop h k s i)
  unfolding up_loop
  up_loop_restores zero n s i f le v = absurd (omega arith)
  up_loop_restores (suc k) n s i f le v =
      let p = parent i in
      let hi : i < size s = omega (arith, v.inside) in
      let hp : parent i < size s = omega (arith, v.inside) in
      Yields-if (p == i) (λ root. yields (λ c pos lt _. v.edges c pos lt (ground arith), still))
        λ inner. rw (b.less-done s i p hi hp) (
          Yields-if (before (key s i) (key s p))
            (λ below. rw (b.swap-done s p i hp hi) (
              Yields-weaken
                (up_loop_restores k n (exchange s p i) p (ground arith)
                  (omega (arith, b.size-exchange s p i))
                  (exchange-IsUpState n s i le v (ground arith) below))
                λ s' r. (r.0, moved p i (omega (arith, v.inside)) v.inside r.1)))
            (λ settled. yields (λ c pos lt _. ground (arith, v.edges c), still)))

  -- `up` makes the first `n` elements a heap if only the edge above `i` was out of order, by
  -- exchanges among them.
  pub up_restores :
      (n : ℕ) (s : S) (i : ℕ)
      → n ≤ size s
      → IsUpState b n s i
      → Yields (λ s'. IsHeap b n s' × Shuffled b n s s') (up h s i)
  unfolding up
  up_restores n s i le v = up_loop_restores (suc i) n s i (omega arith) le v
