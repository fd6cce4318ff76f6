-- ===== src/Queue/Take.antt =====
-- What Remove and RemoveByID do between Lock and Unlock.
use mathlib.Core.List.Perm
use mathlib.Core.Path.{subst}
use distributed_grpc_task_ma.Prelude.{
  ℕ, suc, ◌-◌, ◌<◌, ◌≡◌, ◌≢◌, refl, ap, sym, ◌∙◌, exchange-perm, String, ◌∷◌, Perm, Option, none,
  some, length, arith, ◌==◌, if◌then◌else◌, str_eq, length-perm,
}
use distributed_grpc_task_ma.Prelude.Maps.{find}
use distributed_grpc_task_ma.Prelude.Outcome.{
  done, ◌>>=◌, Yields, yields, Yields-bind, Yields-if, Yields-weaken,
}
use distributed_grpc_task_ma.Types.{Task}
use distributed_grpc_task_ma.Heap
use distributed_grpc_task_ma.Heap.{parent}
use distributed_grpc_task_ma.Heap.Order.{IsHeap, IsDownState, IsOpenState, Shuffled, root_first}
use distributed_grpc_task_ma.Heap.Down.{down_restores}
use distributed_grpc_task_ma.Heap.Ops.{settle_restores}
use distributed_grpc_task_ma.Queue.{
  PriorityQueue, rank, locked, methods, swap, pop, remove_locked, remove_by_id_locked,
}
use distributed_grpc_task_ma.Queue.Ordering.{precedes-IsOrder}
use distributed_grpc_task_ma.Queue.Linked.{
  address, item_at, exchange, swap-done, length-exchange, address-exchange, key-exchange,
  exchange-IsSame, exchange-IsLinked, queue-Behaves, IsLinked, IsSame, Shuffled-IsKept, IsValid,
  tasks, tasks-perm, named, named-IsSame, root_task, IsFirst,
}
use distributed_grpc_task_ma.Queue.Insert.{len-done}
use distributed_grpc_task_ma.Queue.Drop.{pop-done, tasks-dropped, named-dropped, dropped-IsValid}

-- `r` is the queue `q` without the item at position `i`
pub record IsWithout (q : PriorityQueue) (i : ℕ) (r : PriorityQueue) : Type 0 where
  pub valid : IsValid r
  pub removed : Perm ((item_at q i).task ∷ tasks r) (tasks q)
  pub lost :
      (id : String) → named r id ≡ (if str_eq (item_at q i).task.id id then none else named q id)
  pub mutex : r.mu ≡ q.mu

-- `s` holds what `q` does, with the item of position `i` at the end and a heap before it
record IsAtEnd (q : PriorityQueue) (i n : ℕ) (s : PriorityQueue) : Type 0 where
  same : IsSame q s
  perm : Perm s.items q.items
  there : address s n ≡ address q i
  linked : IsLinked s
  heap : IsHeap queue-Behaves n s

-- the result of the two removals
abbrev Takes : PriorityQueue → ℕ → ℕ × PriorityQueue → Type 0
Takes q i r = (r.0 ≡ address q i) × ((r.1.cells r.0).task ≡ (item_at q i).task) × IsWithout q i r.1

pop-Takes :
    (q s : PriorityQueue) (i n : ℕ)
    → length q.items ≡ suc n
    → IsAtEnd q i n s
    → Yields (Takes q i) (pop s)
pop-Takes q s i n size e =
    let size' : length s.items ≡ suc n = length-perm e.perm ∙ size in
    let moved_task : (item_at s n).task ≡ (item_at q i).task =
      e.same.tasks (address s n) ∙ ap (λ p. (q.cells p).task) e.there in
    rw (pop-done s n size') (
      yields (
        e.there,
        ground (arith, moved_task),
        record {
          valid = dropped-IsValid s n size' e.linked e.heap;
          removed =
              rw (sym moved_task) (Perm.trans (tasks-dropped s n size') (tasks-perm e.same e.perm));
          lost =
              λ id. ground (arith, named-dropped s n size' id, moved_task, named-IsSame id e.same);
          mutex = e.same.mu;
        },
      ))

-- After an exchange with the end and a settled heap before it, the item is at the end.
exchange-IsAtEnd :
    (q s : PriorityQueue) (i n : ℕ)
    → length q.items ≡ suc n
    → i < suc n
    → IsLinked q
    → IsHeap queue-Behaves n s
    → Shuffled queue-Behaves n (exchange q i n) s
    → IsAtEnd q i n s
exchange-IsAtEnd q s i n size hi v heap shuffled =
    let hn : n < length q.items = omega arith in
    let kept = Shuffled-IsKept (omega (arith, length-exchange q i n)) shuffled in
    let first = exchange-IsSame q i n in
    record {
      same = record {
        mu = kept.same.mu;
        task_map = kept.same.task_map;
        next = kept.same.next;
        tasks = λ p. kept.same.tasks p ∙ first.tasks p;
      };
      perm = Perm.trans kept.perm (exchange-perm q.items i n 0 (omega arith) hn);
      there =
          kept.beyond n (omega arith) ∙ ground (arith, address-exchange q i n (omega arith) hn n);
      linked = kept.linked (exchange-IsLinked q i n (omega arith) hn v);
      heap = heap;
    }

-- the item at the address `p`, which has the id, is taken out and its task is returned
abbrev pub TakesNamed : PriorityQueue → String → ℕ → Option Task × PriorityQueue → Type 0
TakesNamed q id p r =
    (i : ℕ) × (address q i ≡ p)
    × (r.0 ≡ some (item_at q i).task)
    × ((item_at q i).task.id ≡ id)
    × IsWithout q i r.1

module _ (q : PriorityQueue) (v : IsValid q) (free : q.mu ≢ locked) where
  -- the elements before the end, with the last one at the root, lack at most the edges below it
  root-IsDownState :
      (n : ℕ) → length q.items ≡ suc n → IsDownState queue-Behaves 0 n (exchange q 0 n) 0
  root-IsDownState n size =
      let at = key-exchange q 0 n (omega arith) (omega arith) in
      record {
        edges = λ c pos lt le ne. ground (arith, at c, at (parent c), v.ordered c);
        bridged = λ c pos lt e below. absurd (omega arith);
      }

  heap_pop_lem : (n : ℕ) → length q.items ≡ suc n → Yields (Takes q 0) (Heap.pop methods q)
  unfolding Heap.pop
  heap_pop_lem n size =
      let n_last : suc n - 1 ≡ n = omega arith in
      rw (len-done q free, size, n_last, swap-done q 0 n (omega arith) (omega arith))
        (Yields-bind
          (down_restores precedes-IsOrder queue-Behaves 0 n (exchange q 0 n) 0
            (omega (arith, length-exchange q 0 n)) (root-IsDownState n size))
          λ r t.
            pop-Takes q r.0 0 n size
              (exchange-IsAtEnd q r.0 0 n size (omega arith) v.linked t.0 t.1))

  -- The root of a valid queue comes before no other task, by priority and then by age.
  pub root-IsFirst : IsFirst q
  root-IsFirst i hi = ground (
    arith,
    root_first queue-Behaves precedes-IsOrder (length q.items) q i v.ordered hi,
    v.linked.ranked i hi,
    v.linked.ranked 0 (omega arith),
  )

  -- Where no caller holds the lock, what Remove does between Lock and Unlock takes a task out of a
  -- queue that is not empty: the one at the root, before which no task comes, and the queue that is
  -- left is valid, holds exactly the others, and has forgotten that task's id and no other.
  pub remove_locked_lem :
      0 < length q.items
      → Yields (λ r. (r.0 ≡ some (root_task q)) × IsFirst q × IsWithout q 0 r.1) (remove_locked q)
  unfolding remove_locked
  remove_locked_lem some_left =
      Yields-if (length q.items == 0) (λ e. absurd (ground arith))
        λ _.
          Yields-bind (heap_pop_lem (length q.items - 1) (omega arith))
            λ r t. yields (ap some t.1, root-IsFirst, t.2)

  -- the elements before the end, with the last one at `i`, lack at most the edges at `i`
  hole-IsOpenState :
      (i n : ℕ) → length q.items ≡ suc n → i < n → IsOpenState queue-Behaves n (exchange q i n) i
  hole-IsOpenState i n size hi =
      let at = key-exchange q i n (omega arith) (omega arith) in
      let key = λ (c : ℕ). rank (item_at q c) in
      record {
        inside = hi;
        edges = λ c pos lt ne ne'. ground (arith, at c, at (parent c), v.ordered c);
        bridged = λ c pos lt e below le. ground (
          arith,
          at c,
          at (parent i),
          v.ordered c,
          v.ordered i,
          precedes-IsOrder.trans (key (parent i)) (key i) (key c),
        );
      }

  end-IsAtEnd : (n : ℕ) → length q.items ≡ suc n → IsAtEnd q n n q
  end-IsAtEnd n size = record {
    same = record { mu = refl; task_map = refl; next = refl; tasks = λ p. refl };
    perm = Perm.rfl;
    there = refl;
    linked = v.linked;
    heap = λ c pos lt le. v.ordered c pos (omega arith) le;
  }

  -- the middle of heap.Remove
  bring-IsAtEnd :
      (i n : ℕ)
      → length q.items ≡ suc n
      → i < suc n
      → Yields
          (IsAtEnd q i n)
          (if n == i then done q else swap q i n >>= λ s. Heap.settle methods s i n)
  bring-IsAtEnd i n size hi =
      Yields-if (n == i)
        (λ e.
          let same : n ≡ i = ground arith in
          yields (subst (λ k. IsAtEnd q k n q) same (end-IsAtEnd n size)))
        (λ e. rw (swap-done q i n (omega arith) (omega arith)) (
          Yields-weaken
            (settle_restores precedes-IsOrder queue-Behaves n (exchange q i n) i
              (omega (arith, length-exchange q i n)) (hole-IsOpenState i n size (ground arith)))
            λ s t. exchange-IsAtEnd q s i n size hi v.linked t.0 t.1))

  heap_remove_lem :
      (i n : ℕ) → length q.items ≡ suc n → i < suc n → Yields (Takes q i) (Heap.remove methods q i)
  unfolding Heap.remove
  heap_remove_lem i n size hi =
      let n_last : suc n - 1 ≡ n = omega arith in
      rw (len-done q free, size, n_last)
        (Yields-bind (bring-IsAtEnd i n size hi) λ s e. pop-Takes q s i n size e)

  -- Where no caller holds the lock, what RemoveByID does between Lock and Unlock takes the item that
  -- the id is mapped to out of the queue: its task has that id and is returned, and the queue that is
  -- left is valid, holds exactly the others, and has forgotten that id and no other.
  pub remove_by_id_locked_lem :
      (id : String) (p : ℕ)
      → find id q.task_map ≡ some p
      → Yields (TakesNamed q id p) (remove_by_id_locked q id)
  unfolding remove_by_id_locked
  remove_by_id_locked_lem id p e =
      let (i, hi, live, name) = v.linked.mapped id p e in
      let index : (q.cells p).index ≡ some i = ground (arith, v.linked.indexed i hi) in
      rw (e, index, remove_by_id_locked)
        (Yields-bind (heap_remove_lem i (length q.items - 1) (omega arith) (omega arith)) λ r t.
          yields (
            i,
            live,
            ap some (ap (λ a. (r.1.cells a).task) (sym (t.0 ∙ live)) ∙ t.1),
            ground arith,
            t.2,
          ))
