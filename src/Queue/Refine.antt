-- ===== src/Queue/Refine.antt =====
-- The queue refines a bag: what Add, Remove, Get and Len do under the lock, one call after the other.
use mathlib.Core.List.Perm
use mathlib.Core.List.{Mem, mem-cons, not-mem-nil}
use mathlib.Core.Logic.Or
use mathlib.Core.Logic.{∥∥₁_elim}
use mathlib.Core.Quot
use mathlib.Core.Path.{subst}
use mathlib.Core.Bool.{Bool-set}
use distributed_grpc_task_ma.Prelude.{
  ℕ, suc, ◌<◌, ◌≡◌, ◌≢◌, refl, sym, ap, ◌∙◌, false, List, [], ◌∷◌, map, Perm, none, length, get_or,
  length-map, arith, inl, inr, ◌⊎◌,
}
use distributed_grpc_task_ma.Prelude.Outcome.{
  Outcome, done, ◌>>=◌, Yields, yields, Yields-bind, Yields-weaken,
}
use distributed_grpc_task_ma.Types.{Task}
use distributed_grpc_task_ma.Queue.{
  PriorityQueue, TaskItem, locked, precedes, len, get, add_locked, remove_locked,
  new_priority_queue,
}
use distributed_grpc_task_ma.Queue.Linked.{IsValid, IsFirst, tasks, task_of, root_task, task_rank}
use distributed_grpc_task_ma.Queue.Insert.{add_locked_lem}
use distributed_grpc_task_ma.Queue.Take.{remove_locked_lem}
use distributed_grpc_task_ma.Queue.Reads.{new_priority_queue_lem, get_lem, first}
use distributed_grpc_task_ma.Queue.Stats.{len_lem}
use distributed_grpc_task_ma.Queue.Bag.{
  Bag, bag_of, put, size, exact, IsTop, Call, adds, takes, peeks, counts, Seen, added, gave,
  counted, Allows, add, take, take_none, peek, peek_none, count, Runs, stop, next,
}

-- the code of each method; what Add and Remove do is taken between Lock and Unlock
unfoldable pub perform : Call → PriorityQueue → Outcome (Seen × PriorityQueue)
perform (adds t) q = add_locked q t >>= λ r. done (added, r)
perform takes q = remove_locked q >>= λ (t, r). done (gave t, r)
perform peeks q = get q >>= λ t. done (gave t, q)
perform counts q = len q >>= λ n. done (counted n, q)

unfoldable pub run : List Call → PriorityQueue → Outcome (List Seen × PriorityQueue)
unfolding perform
run [] q = done ([], q)
run (o ∷ os) q = do (x, r) ← perform o q; (xs, s) ← run os r; done (x ∷ xs, s)

abbrev pub view : PriorityQueue → Bag
view q = bag_of (tasks q)

-- a property of what stands at each position holds of each member
pub All-mem :
    {P : Task → Type 0} (hP : (t : Task) → IsProp (P t)) (f : ℕ → Task) (xs : List ℕ) (u : Task)
    → ((i : ℕ) → i < length xs → P (f (get_or xs i 0)))
    → Mem u (map f xs)
    → P u
All-mem hP f [] u k m = absurd (not-mem-nil m)
All-mem {P} hP f (x ∷ xs) u k m =
    Or.elim (hP u) (mem-cons.0 m) (λ e. subst P (sym e) (k 0 (omega arith)))
      (All-mem hP f xs u (λ i h. k (suc i) (omega arith)))

-- no member of a bag comes before the task at the root
IsFirst-IsTop :
    (q : PriorityQueue) (ts : List Task)
    → IsFirst q
    → Perm (root_task q ∷ ts) (tasks q)
    → IsTop (root_task q) (view q) (bag_of ts)
unfolding put
IsFirst-IsTop q ts f p = record {
  holds = Quot.sound (Perm.symm p);
  first = λ u others e. ∥∥₁_elim (Quot.exists_rep others) (Bool-set _ _) λ (us, k).
      All-mem {P = λ t. precedes (task_rank t) (task_rank (root_task q)) ≡ false}
        (λ t. Bool-set _ _) (task_of q) q.items u f
        ((Perm.mem_iff (exact (tasks q) (u ∷ us) (rw (e, sym k) refl))).1
          (mem-cons.1 (Or.inl refl)));
}

items-cases : (xs : List ℕ) → (xs ≡ []) ⊎ ((p : ℕ) × (ps : List ℕ) × (xs ≡ p ∷ ps))
items-cases [] = inl refl
items-cases (p ∷ ps) = inr (p, ps, refl)

-- the cases of a queue: nothing, or a root with others
tasks-cases :
    (q : PriorityQueue)
    → (tasks q ≡ []) ⊎ ((ts : List Task) × (tasks q ≡ root_task q ∷ ts) × (0 < length q.items))
tasks-cases q = elim (items-cases q.items) [
  | inl e ↦ inl (rw (e) refl)
  | inr (p, ps, e) ↦ inr (map (task_of q) ps, rw (e) refl, omega (arith, ap length e))
]

remove_locked-empty : (q : PriorityQueue) → tasks q ≡ [] → remove_locked q ≡ done (none, q)
unfolding remove_locked
remove_locked-empty q e =
    let empty : length q.items ≡ 0 = sym (length-map (task_of q) q.items) ∙ ap length e in
    rw (empty) refl

abbrev pub IsReady : PriorityQueue → Type 0
IsReady q = IsValid q × (q.mu ≢ locked)

abbrev Performs : Call → PriorityQueue → Type 0
Performs o q = Yields (λ (x, r). Allows (view q) (view r) o x × IsReady r) (perform o q)

perform-adds : (t : Task) (q : PriorityQueue) → IsReady q → Performs (adds t) q
unfolding perform put
perform-adds t q (v, free) =
    Yields-bind (add_locked_lem q t v free)
      λ r a. yields (add t (Quot.sound a.added), (a.valid, rw (a.mutex) free))

perform-takes : (q : PriorityQueue) → IsReady q → Performs takes q
unfolding perform
perform-takes q (v, free) = elim (tasks-cases q) [
  | inl e ↦ rw (remove_locked-empty q e) (yields (take_none (ap bag_of e) refl, (v, free)))
  | inr (ts, e, some_left) ↦ Yields-bind (remove_locked_lem q v free some_left) λ (t, r) (k, f, w).
      rw (k) (
        yields (
          take (root_task q) (IsFirst-IsTop q (tasks r) f w.removed),
          (w.valid, rw (w.mutex) free),
        ))
]

perform-peeks : (q : PriorityQueue) → IsReady q → Performs peeks q
unfolding perform
perform-peeks q (v, free) =
    let (k, f) = get_lem q v free in
    elim (tasks-cases q) [
      | inl e ↦
          rw (k ∙ ap (λ ts. done (first ts)) e) (yields (peek_none (ap bag_of e) refl, (v, free)))
      | inr (ts, e, some_left) ↦
          let top = IsFirst-IsTop q ts f (rw (e) (Perm.refl _)) in
          rw (k ∙ ap (λ ts. done (first ts)) e)
            (yields (peek (root_task q) (bag_of ts) top refl, (v, free)))
    ]

perform-counts : (q : PriorityQueue) → IsReady q → Performs counts q
unfolding perform size
perform-counts q (v, free) =
    rw (len_lem q free) (yields (count (length (tasks q)) refl refl, (v, free)))

perform-Allows : (o : Call) (q : PriorityQueue) → IsReady q → Performs o q
perform-Allows (adds t) = perform-adds t
perform-Allows takes = perform-takes
perform-Allows peeks = perform-peeks
perform-Allows counts = perform-counts

run-ready :
    (os : List Call) (q : PriorityQueue)
    → IsReady q
    → Yields (λ (xs, r). Runs (view q) os xs (view r)) (run os q)
unfolding run
run-ready [] q i = yields stop
run-ready (o ∷ os) q i =
    Yields-bind (perform-Allows o q i)
      λ (x, r) (a, j). Yields-bind (run-ready os r j) λ (xs, s) k. yields (next a k)

-- Whatever the code of Add, Remove, Get and Len, without the lock of Add and Remove, is called for on a
-- new queue, and in whatever order, every call returns, and the answers are those of a bag: Remove and
-- Get give a task of the bag before which no other comes, or none only if the bag is empty, Remove
-- takes out exactly that task, Add puts exactly its task in, and Len gives the number of the tasks.
pub run-Runs :
    (cells : ℕ → TaskItem) (os : List Call)
    → Yields
        (λ (xs, r). Runs (bag_of []) os xs (view r))
        (new_priority_queue cells >>= λ q. run os q)
run-Runs cells os = Yields-bind (new_priority_queue_lem cells) λ q (v, e, m).
    Yields-weaken (run-ready os q (v, λ l. absurd (ground (arith))))
      λ (xs, r) k. subst (λ b. Runs b os xs (view r)) (ap bag_of e) k
