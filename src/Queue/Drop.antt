-- ===== src/Queue/Drop.antt =====
-- Pop as container/heap calls it: the last element leaves the slice and the map.
use mathlib.Core.List.Perm
use mathlib.Core.List.{perm_append_singleton, map-append}
use mathlib.Core.Path.{fun_ext}
use distributed_grpc_task_ma.Prelude.{
  ℕ, suc, ◌-◌, ◌<◌, ◌≡◌, ◌≢◌, ap, sym, ◌∙◌, String, [], ◌∷◌, ◌++◌, map, Perm, none, some, take,
  length, arith, if◌then◌else◌, str_eq, eq_iff, get_or-take, length-take, take-append-get_or,
  get_elem?-get_or,
}
use distributed_grpc_task_ma.Prelude.Maps.{find, find-remove, remove as map_remove}
use distributed_grpc_task_ma.Prelude.Outcome.{done}
use distributed_grpc_task_ma.Types.{Task}
use distributed_grpc_task_ma.Heap.{parent}
use distributed_grpc_task_ma.Heap.Order.{IsHeap}
use distributed_grpc_task_ma.Queue.{PriorityQueue, set_index, pop}
use distributed_grpc_task_ma.Queue.Linked.{
  address, item_at, queue-Behaves, IsLinked, IsValid, task_of, tasks, named,
}

-- two positions hold different addresses
pub address-distinct :
    (q : PriorityQueue) (i j : ℕ)
    → IsLinked q
    → i < length q.items
    → j < length q.items
    → address q i ≡ address q j
    → i ≡ j
address-distinct q i j v hi hj e = ground (arith, v.indexed i hi, v.indexed j hj)

module _ (q : PriorityQueue) (n : ℕ) (size : length q.items ≡ suc n) where
  abbrev pub last : Task
  last = (item_at q n).task

  -- the queue without its last element
  abbrev pub dropped : PriorityQueue
  dropped = record q {
    items = take n q.items;
    task_map = map_remove last.id q.task_map;
    cells = set_index q.cells (address q n) none;
  }

  pub pop-done : pop q ≡ done (address q n, dropped)
  unfolding pop
  pop-done =
      let n_last : suc n - 1 ≡ n = omega arith in
      rw (size, n_last, get_elem?-get_or q.items n 0 (omega arith)) (ground arith)

  same_tasks : task_of dropped ≡ task_of q
  same_tasks = fun_ext λ p. ground arith

  pub length-dropped : length dropped.items ≡ n
  length-dropped = length-take n q.items (omega arith)

  pub tasks-dropped : Perm (last ∷ tasks dropped) (tasks q)
  tasks-dropped =
      let g = task_of q in
      let whole : map g (take n q.items) ++ last ∷ [] ≡ tasks q =
        sym (map-append g (take n q.items) (address q n ∷ []))
        ∙ ap (map g) (take-append-get_or n q.items 0 size) in
      rw same_tasks (rw whole at (Perm.symm (perm_append_singleton last (map g (take n q.items)))))

  pub named-dropped :
      (id : String) → named dropped id ≡ (if str_eq last.id id then none else named q id)
  named-dropped id = rw same_tasks (ground (arith, find-remove last.id id q.task_map))

  module _ (v : IsLinked q) (heap : IsHeap queue-Behaves n q) where
    item_at-dropped : (c : ℕ) → c < n → item_at dropped c ≡ item_at q c
    item_at-dropped c h =
        ground
          (arith, get_or-take n q.items c 0 h, address-distinct q c n v (omega arith) (omega arith))

    dropped-mapped :
        (id : String) (p : ℕ)
        → find id dropped.task_map ≡ some p
        → (i : ℕ) × (i < length dropped.items)
          × (address dropped i ≡ p)
          × ((dropped.cells p).task.id ≡ id)
    dropped-mapped id p e =
        let split = find-remove last.id id q.task_map in
        let kept : find id q.task_map ≡ some p = ground (arith, split) in
        let (i, hi, live, name) = v.mapped id p kept in
        let other : i ≢ n = λ at_end. ground (arith, split, eq_iff last.id id) in
        (
          i,
          omega (arith, length-dropped, other),
          get_or-take n q.items i 0 (omega (arith, other)) ∙ live,
          ground arith,
        )

    pub dropped-IsValid : IsValid dropped
    dropped-IsValid = record {
      linked = record {
        indexed = λ c h. ground (arith, length-dropped, item_at-dropped c, v.indexed c);
        ranked = λ c h. ground (arith, length-dropped, item_at-dropped c, v.ranked c);
        allocated = λ c h. ground (arith, length-dropped, get_or-take n q.items c 0, v.allocated c);
        mapped = dropped-mapped;
      };
      ordered = λ c pos lt le.
          let hc : c < n = omega (arith, length-dropped) in
          let hp : parent c < n = omega arith in
          rw (item_at-dropped c hc, item_at-dropped (parent c) hp) (heap c pos hc (omega arith));
    }
