-- ===== src/Queue/Insert.antt =====
-- What Add does between Lock and Unlock.
use mathlib.Core.List.Perm
use mathlib.Core.Path.{fun_ext, ap₂}
use mathlib.Core.List.{perm_append_singleton, map-append}
use distributed_grpc_task_ma.Prelude.{
  ℕ, ◌+◌, ◌-◌, ◌<◌, ◌≡◌, ◌≢◌, refl, ◌∙◌, String, [], ◌∷◌, ◌++◌, map, Perm, Option, none, some,
  length, arith, inl, inr, Bool-cases, if◌then◌else◌, str_eq, eq_iff, get_or-append,
  get_or-append_last, length-append, length-perm, map-agree,
}
use distributed_grpc_task_ma.Prelude.Maps.{find, put, find-put}
use distributed_grpc_task_ma.Prelude.Outcome.{done, Yields, Yields-weaken}
use distributed_grpc_task_ma.Types.{Task}
use distributed_grpc_task_ma.Heap
use distributed_grpc_task_ma.Heap.{parent}
use distributed_grpc_task_ma.Heap.Order.{IsHeap, IsUpState, Shuffled}
use distributed_grpc_task_ma.Heap.Up.{up_restores}
use distributed_grpc_task_ma.Queue.{
  PriorityQueue, TaskItem, locked, write, set_index, len, push, add_locked,
}
use distributed_grpc_task_ma.Queue.Ordering.{precedes-IsOrder}
use distributed_grpc_task_ma.Queue.Linked.{
  address, item_at, queue-Behaves, IsLinked, Shuffled-IsKept, IsValid, tasks, tasks-perm, deref,
  named, named-IsSame,
}

-- Len does not wait.
pub len-done : (q : PriorityQueue) → q.mu ≢ locked → len q ≡ done (length q.items)
unfolding len
len-done q h = ground arith

module _ (q : PriorityQueue) (task : Task) (v : IsValid q) where
  abbrev n : ℕ
  n = length q.items

  -- the queue after Push, before `up`
  abbrev pushed : PriorityQueue
  pushed = record q {
    items = q.items ++ q.next ∷ [];
    task_map = put task.id q.next q.task_map;
    cells = write q.cells q.next (record { task = task; priority = task.priority; index = some n });
    next = q.next + 1;
  }

  size : length pushed.items ≡ n + 1
  size = length-append q.items (q.next ∷ [])

  address-old : (c : ℕ) → c < n → address pushed c ≡ address q c
  address-old c h = get_or-append q.items (q.next ∷ []) c 0 h

  address-new : address pushed n ≡ q.next
  address-new = get_or-append_last q.items q.next n 0 refl

  item_at-old : (c : ℕ) → c < n → item_at pushed c ≡ item_at q c
  item_at-old c h = ground (arith, address-old c h, v.linked.allocated c h)

  pushed-mapped :
      (id : String) (p : ℕ)
      → find id pushed.task_map ≡ some p
      → (i : ℕ) × (i < length pushed.items)
        × (address pushed i ≡ p)
        × ((pushed.cells p).task.id ≡ id)
  pushed-mapped id p e =
      let split = find-put task.id id q.next q.task_map in
      elim (Bool-cases (str_eq task.id id)) [
        | inl same ↦
            let new : q.next ≡ p = ground (arith, split) in
            (n, omega (arith, size), address-new ∙ new, ground (arith, eq_iff task.id id))
        | inr other ↦
            let (i, hi, live, name) = v.linked.mapped id p (ground (arith, split)) in
            (
              i,
              omega (arith, size),
              address-old i hi ∙ live,
              ground (arith, v.linked.allocated i hi),
            )
      ]

  pushed-IsLinked : IsLinked pushed
  pushed-IsLinked = record {
    indexed = λ c h. ground (arith, size, address-new, item_at-old c, v.linked.indexed c);
    ranked = λ c h. ground (arith, size, address-new, item_at-old c, v.linked.ranked c);
    allocated = λ c h. ground (arith, size, address-new, address-old c, v.linked.allocated c);
    mapped = λ id p e. pushed-mapped id p e;
  }

  pushed-IsUpState : IsUpState queue-Behaves (n + 1) pushed n
  pushed-IsUpState = record {
    inside = omega arith;
    edges = λ c pos lt ne.
        let hc : c < n = omega arith in
        let hp : parent c < n = omega arith in
        rw (item_at-old c hc, item_at-old (parent c) hp) (v.ordered c pos hc (omega arith));
    bridged = λ c pos lt e. absurd (omega arith);
  }

  deref-old :
      (id : String) (o : Option ℕ)
      → find id q.task_map ≡ o
      → deref (λ p. (pushed.cells p).task) o ≡ deref (λ p. (q.cells p).task) o
  deref-old id none e = refl
  deref-old id (some p) e =
      let (i, hi, live, name) = v.linked.mapped id p e in ground (arith, v.linked.allocated i hi)

  named-pushed :
      (id : String) → named pushed id ≡ (if str_eq task.id id then some task else named q id)
  named-pushed id =
      ground (arith, find-put task.id id q.next q.task_map, deref-old id (find id q.task_map) refl)

  tasks-pushed : Perm (tasks pushed) (task ∷ tasks q)
  tasks-pushed =
      let f = λ (p : ℕ). (pushed.cells p).task in
      let g = λ (p : ℕ). (q.cells p).task in
      let old : map f q.items ≡ map g q.items =
        map-agree q.items f g 0 λ i h. ground (arith, v.linked.allocated i h) in
      let new : f q.next ≡ task = ground arith in
      rw (map-append, old, new) (perm_append_singleton task (map g q.items))

  push-done :
      push
        (record q {
          cells =
              write q.cells q.next
                (record { task = task; priority = task.priority; index = some 0 });
          next = q.next + 1;
        })
        q.next
      ≡ done pushed
  unfolding push
  push-done =
      let item : TaskItem = record { task = task; priority = task.priority; index = some 0 } in
      let cells = write q.cells q.next item in
      let named_alike : put (cells q.next).task.id q.next q.task_map ≡ pushed.task_map =
        ground arith in
      let cells_alike : set_index cells q.next (some n) ≡ pushed.cells =
        fun_ext λ p. ground arith in
      ap₂ (λ m c. done (record pushed { task_map = m; cells = c })) named_alike cells_alike

  -- the queue that a call leaves, if the elements of `pushed` have been exchanged
  pub record IsAdded (r : PriorityQueue) : Type 0 where
    pub valid : IsValid r
    pub added : Perm (tasks r) (task ∷ tasks q)
    pub found : (id : String) → named r id ≡ (if str_eq task.id id then some task else named q id)
    pub mutex : r.mu ≡ q.mu

  Shuffled-IsAdded :
      (r : PriorityQueue)
      → IsHeap queue-Behaves (n + 1) r
      → Shuffled queue-Behaves (n + 1) pushed r
      → IsAdded r
  Shuffled-IsAdded r heap shuffled =
      let kept = Shuffled-IsKept (omega (arith, size)) shuffled in
      record {
        valid = record {
          linked = kept.linked pushed-IsLinked;
          ordered = rw (length-perm kept.perm, size) heap;
        };
        added = Perm.trans (tasks-perm kept.same kept.perm) tasks-pushed;
        found = λ id. named-IsSame id kept.same ∙ named-pushed id;
        mutex = kept.same.mu;
      }

  -- Where no caller holds the lock, what Add does between Lock and Unlock returns, with a valid queue
  -- of exactly the old tasks and the new one, in which the new task is found under its id and the
  -- other ids lead where they did.
  pub add_locked_lem : q.mu ≢ locked → Yields IsAdded (add_locked q task)
  unfolding add_locked Heap.push
  add_locked_lem h =
      let last : length pushed.items - 1 ≡ n = omega (arith, size) in
      rw (push-done, len-done pushed h, last)
        (Yields-weaken
          (up_restores precedes-IsOrder queue-Behaves (n + 1) pushed n (omega (arith, size))
            pushed-IsUpState)
          λ r t. Shuffled-IsAdded r t.0 t.1)
