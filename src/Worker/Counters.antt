-- ===== src/Worker/Counters.antt =====
-- Workers that run at the same time: the sections of processTask that hold the lock of the metrics are
-- the atomic steps, and each worker enters, counts its result and leaves, in any interleaving.
use distributed_grpc_task_ma.Prelude.{
  ◌≡◌, refl, ℕ, zero, suc, ◌+◌, ◌%◌, ◌<◌, ◌≤◌, List, [], ◌∷◌, some, length, get_elem?, set,
  length-set, ap, ◌∙◌, arith,
}
use distributed_grpc_task_ma.Prelude.Effects.{Result}
use distributed_grpc_task_ma.Worker.{
  WorkerMetrics, enter, leave, count_result, increment, decrement, new_worker_pool,
}

pub data Phase : Type 0 where
  idle processing counted : Phase

unfoldable pub idle_workers : ℕ → List Phase
idle_workers zero = []
idle_workers (suc n) = idle ∷ idle_workers n

abbrev pub busy : Phase → ℕ
busy idle = 0
busy processing = 1
busy counted = 1

unfoldable pub count_busy : List Phase → ℕ
count_busy [] = 0
count_busy (p ∷ ps) = busy p + count_busy ps

-- what `n` workers can come to, with the number of results that they have counted
pub data Reaches (n : ℕ) : ℕ → List Phase → WorkerMetrics → Type 0 where
  begins : Reaches n 0 (idle_workers n) (new_worker_pool n).metrics
  enters :
      {k : ℕ} {ps : List Phase} {m : WorkerMetrics} (i : ℕ)
      → Reaches n k ps m
      → get_elem? ps i ≡ some idle
      → Reaches n k (set ps i processing) (enter m)
  counts :
      {k : ℕ} {ps : List Phase} {m : WorkerMetrics} (i : ℕ) (r : Result (Unit {0}))
      → Reaches n k ps m
      → get_elem? ps i ≡ some processing
      → Reaches n (suc k) (set ps i counted) (count_result r m)
  leaves :
      {k : ℕ} {ps : List Phase} {m : WorkerMetrics} (i : ℕ)
      → Reaches n k ps m
      → get_elem? ps i ≡ some counted
      → Reaches n k (set ps i idle) (leave m)

count_busy-set :
    (ps : List Phase) (i : ℕ) (p q : Phase)
    → get_elem? ps i ≡ some p
    → count_busy (set ps i q) + busy p ≡ count_busy ps + busy q
unfolding count_busy
count_busy-set [] i p q e = ground arith
count_busy-set (x ∷ ps) zero p q e = ground arith
count_busy-set (x ∷ ps) (suc i) p q e = ground (arith, count_busy-set ps i p q)

count_busy-idle_workers : (n : ℕ) → count_busy (idle_workers n) ≡ 0
unfolding count_busy idle_workers
count_busy-idle_workers zero = refl
count_busy-idle_workers (suc n) = omega (arith, count_busy-idle_workers n)

count_busy_bound : (ps : List Phase) → count_busy ps ≤ length ps
unfolding count_busy
count_busy_bound [] = omega arith
count_busy_bound (p ∷ ps) = ground (arith, count_busy_bound ps)

length-idle_workers : (n : ℕ) → length (idle_workers n) ≡ n
unfolding idle_workers
length-idle_workers zero = refl
length-idle_workers (suc n) = ap suc (length-idle_workers n)

Reaches-length : {n k : ℕ} {ps : List Phase} {m : WorkerMetrics} → Reaches n k ps m → length ps ≡ n
Reaches-length {n = n} begins = length-idle_workers n
Reaches-length (enters {ps = ps} i s e) = length-set ps i processing ∙ Reaches-length s
Reaches-length (counts {ps = ps} i r s e) = length-set ps i counted ∙ Reaches-length s
Reaches-length (leaves {ps = ps} i s e) = length-set ps i idle ∙ Reaches-length s

-- In every interleaving of fewer than 2 ^ 64 workers, the counter of the tasks in progress is the number
-- of the workers that are between entering and leaving, and the tasks that were processed and those
-- that failed add up to the results that were counted, modulo 2 ^ 64.
pub Reaches-counters :
    {n k : ℕ} {ps : List Phase} {m : WorkerMetrics}
    → Reaches n k ps m
    → n < 18446744073709551616
    → (m.tasks_in_progress ≡ count_busy ps)
      × ((m.tasks_processed + m.tasks_failed) % 18446744073709551616 ≡ k % 18446744073709551616)
unfolding new_worker_pool enter leave count_result increment decrement
Reaches-counters {n = n} begins b = omega (arith, count_busy-idle_workers n)
Reaches-counters (enters {ps = ps} i s e) b = ground (
  arith,
  Reaches-counters s b,
  Reaches-length s,
  count_busy-set ps i idle processing e,
  count_busy_bound (set ps i processing),
  length-set ps i processing,
)
Reaches-counters (counts {ps = ps} i r s e) b =
    ground (arith, Reaches-counters s b, count_busy-set ps i processing counted e)
Reaches-counters (leaves {ps = ps} i s e) b = ground (
  arith,
  Reaches-counters s b,
  Reaches-length s,
  count_busy-set ps i counted idle e,
  count_busy_bound ps,
)
