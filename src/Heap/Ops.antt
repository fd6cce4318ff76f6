-- ===== src/Heap/Ops.antt =====
-- Init, and the pair of `down` and `up` in Remove and Fix.
use distributed_grpc_task_ma.Prelude.{ℕ, ◌≤◌, ◌/◌, ◌≡◌, Bool, arith, if◌then◌else◌, inl, inr}
use distributed_grpc_task_ma.Prelude.Outcome.{done, Yields, yields, Yields-bind}
use distributed_grpc_task_ma.Heap.{Interface, up, init, settle}
use distributed_grpc_task_ma.Heap.Order.{IsOrder, Behaves, IsHeap, IsOpenState, Shuffled}
use distributed_grpc_task_ma.Heap.Up.{up_restores}
use distributed_grpc_task_ma.Heap.Down.{Settled, down_settles, init_loop_orders}

module _ {S X K : Type 0} {h : Interface S X} {before : K → K → Bool} (o : IsOrder before)
    (b : Behaves h before) where
  open b use {size}

  after_down :
      (n : ℕ) (s : S) (i : ℕ) (r : S × Bool)
      → n ≤ size s
      → Settled o b n s i r
      → Yields (λ s'. IsHeap b n s' × Shuffled b n s s') (if r.1 then done r.0 else up h r.0 i)
  after_down n s i r le (inl (stuck, same, v)) = rw (stuck, same) (up_restores o b n s i le v)
  after_down n s i r le (inr (sank, heap, shuffled)) = rw sank (yields (heap, shuffled))

  -- An element whose key changed finds its place, whichever way it has to go.
  pub settle_restores :
      (n : ℕ) (s : S) (i : ℕ)
      → n ≤ size s
      → IsOpenState b n s i
      → Yields (λ s'. IsHeap b n s' × Shuffled b n s s') (settle h s i n)
  unfolding settle
  settle_restores n s i le v =
      Yields-bind (down_settles o b n s i le v) λ r t. after_down n s i r le t

  -- Init makes any elements a heap.
  pub init_orders :
      (s : S)
      → h.len s ≡ done (size s)
      → Yields (λ s'. IsHeap b (size s) s' × Shuffled b (size s) s s') (init h s)
  unfolding init
  init_orders s e = rw e (
      init_loop_orders o b (size s / 2) (size s) s (omega arith)
        (λ c pos lt le. absurd (omega arith)))
