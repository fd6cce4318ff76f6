-- ===== src/Queue/Sorting.antt =====
-- The order in which tasks leave the queue.
use mathlib.Core.List.Perm
use mathlib.Core.List.{Mem, mem-cons, append-nil}
use mathlib.Core.Logic.Or
use mathlib.Core.Bool.{Bool-set}
use distributed_grpc_task_ma.Prelude.{
  ℕ, zero, suc, ◌≡◌, refl, false, List, [], ◌∷◌, ◌++◌, middle, Perm, length, length-map,
  length-perm, arith,
}
use distributed_grpc_task_ma.Prelude.Outcome.{
  Outcome, done, ◌>>=◌, or_panic, Yields, yields, Yields-bind, Yields-weaken,
}
use distributed_grpc_task_ma.Types.{Task}
use distributed_grpc_task_ma.Queue.{
  PriorityQueue, TaskItem, precedes, add_locked, remove_locked, new_priority_queue,
}
use distributed_grpc_task_ma.Queue.Linked.{tasks, task_of, root_task, task_rank}
use distributed_grpc_task_ma.Queue.Insert.{add_locked_lem}
use distributed_grpc_task_ma.Queue.Take.{remove_locked_lem}
use distributed_grpc_task_ma.Queue.Reads.{new_priority_queue_lem}
use distributed_grpc_task_ma.Queue.Refine.{IsReady, All-mem}

-- a client that adds the tasks of a list
unfoldable pub fill : List Task → PriorityQueue → Outcome PriorityQueue
fill [] q = done q
fill (t ∷ ts) q = add_locked q t >>= λ r. fill ts r

-- and one that takes as many out, which fails if there is none
unfoldable pub drain : ℕ → PriorityQueue → Outcome (List Task × PriorityQueue)
drain zero q = done ([], q)
drain (suc n) q = do (o, r) ← remove_locked q; t ← or_panic o; (ts, s) ← drain n r; done (t ∷ ts, s)

-- no task of the list comes before one that stands earlier
abbrev pub IsInOrder : List Task → Type 0
IsInOrder [] = Unit {0}
IsInOrder (t ∷ ts) =
    ((u : Task) → Mem u ts → precedes (task_rank u) (task_rank t) ≡ false) × IsInOrder ts

nil_of_length : (ts : List Task) → length ts ≡ 0 → ts ≡ []
nil_of_length [] e = refl
nil_of_length (t ∷ ts) e = absurd (omega (arith, e))

fill_lem :
    (ts : List Task) (q : PriorityQueue)
    → IsReady q
    → Yields (λ r. IsReady r × Perm (tasks r) (ts ++ tasks q)) (fill ts q)
unfolding fill
fill_lem [] q i = yields (i, Perm.refl _)
fill_lem (t ∷ ts) q (v, free) = Yields-bind (add_locked_lem q t v free) λ r a.
    Yields-weaken (fill_lem ts r (a.valid, rw (a.mutex) free)) λ s (i, p).
      (i, Perm.trans p (Perm.trans (Perm.append_left ts a.added) (middle t ts (tasks q))))

drain_lem :
    (n : ℕ) (q : PriorityQueue)
    → IsReady q
    → length (tasks q) ≡ n
    → Yields (λ (ts, r). Perm ts (tasks q) × IsInOrder ts × (tasks r ≡ [])) (drain n q)
unfolding drain
drain_lem zero q i e = let z = nil_of_length (tasks q) e in yields (rw (z) (Perm.refl []), tt, z)
drain_lem (suc n) q (v, free) e =
    Yields-bind (remove_locked_lem q v free (omega (arith, e, length-map (task_of q) q.items)))
      λ (o, r) (k, f, w). rw (k) (
        Yields-bind
          (drain_lem n r (w.valid, rw (w.mutex) free) (omega (arith, length-perm w.removed, e)))
          λ (ts, s) (p, d, z). yields (
            Perm.trans (Perm.cons (root_task q) p) w.removed,
            (
              λ u m.
                  All-mem {P = λ t. precedes (task_rank t) (task_rank (root_task q)) ≡ false}
                    (λ t. Bool-set _ _) (task_of q) q.items u f
                    ((Perm.mem_iff w.removed).0 (mem-cons.1 (Or.inr ((Perm.mem_iff p).0 m)))),
              d,
            ),
            z,
          ))

-- Whatever tasks the code of Add, without its lock, puts into a new queue, the code of Remove, called as
-- often, gives back exactly these tasks, none of them after one that it comes before.
pub drain-fill :
    (cells : ℕ → TaskItem) (ts : List Task)
    → Yields
        (λ (us, r). Perm us ts × IsInOrder us × (tasks r ≡ []))
        (do q ← new_priority_queue cells; r ← fill ts q; drain (length ts) r)
drain-fill cells ts = Yields-bind (new_priority_queue_lem cells) λ q (v, e, m).
    Yields-bind (fill_lem ts q (v, λ l. absurd (ground (arith)))) λ r (i, p).
      let all : Perm (tasks r) ts = rw (e, append-nil) at p in
      Yields-weaken (drain_lem (length ts) r i (length-perm all))
        λ (us, s) (p', d, z). (Perm.trans p' all, d, z)
