-- ===== src/Coordinator/Load.antt =====
-- calculateAverageLoad: on loads that are not negative it is the total load divided by the number of
-- peers, rounded down.
use distributed_grpc_task_ma.Prelude.{
  ℕ, ◌+◌, ◌*◌, ◌/◌, ◌≤◌, ◌<◌, ◌≡◌, List, [], ◌∷◌, pos, length, arith,
}
use distributed_grpc_task_ma.Coordinator.{Peer, add_int, total_load, calculate_average_load}

-- the loads of the peers, which are not negative
abbrev pub HasLoads : List Peer → List ℕ → Type 0
HasLoads [] [] = Unit {0}
HasLoads (p ∷ ps) (n ∷ ns) = (p.load ≡ pos n) × HasLoads ps ns
HasLoads _ _ = ⊥

abbrev pub sum : List ℕ → ℕ
sum [] = 0
sum (n ∷ ns) = n + sum ns

total_load-sum :
    (ps : List Peer) (ns : List ℕ) (k : ℕ)
    → HasLoads ps ns
    → total_load ps (pos k) ≡ pos (k + sum ns)
unfolding total_load
total_load-sum [] [] k h = ground arith
total_load-sum [] (n ∷ ns) k h = absurd h
total_load-sum (p ∷ ps) [] k h = absurd h
total_load-sum (p ∷ ps) (n ∷ ns) k (e, h) =
    let first : add_int (pos k) p.load ≡ pos (k + n) = ground arith in
    rw first (ground (arith, total_load-sum ps ns (k + n) h))

-- The average of loads that are not negative, times the number of peers, is the total load up to less
-- than one unit for each peer.
pub calculate_average_load_bounds :
    (p : Peer) (ps : List Peer) (n : ℕ) (ns : List ℕ)
    → HasLoads (p ∷ ps) (n ∷ ns)
    → (a : ℕ) × (calculate_average_load (p ∷ ps) ≡ pos a)
      × (a * length (p ∷ ps) ≤ sum (n ∷ ns))
      × (sum (n ∷ ns) < a * length (p ∷ ps) + length (p ∷ ps))
unfolding calculate_average_load
calculate_average_load_bounds p ps n ns h = (
  sum (n ∷ ns) / length (p ∷ ps),
  ground (arith, total_load-sum (p ∷ ps) (n ∷ ns) 0 h),
  grind arith,
  grind arith,
)
