-- ===== src/Queue/Linked.antt =====
-- The queue as an implementation of heap.Interface, and the links between the items, the map from
-- ids to items and the index that each item keeps.
use mathlib.Core.List.Perm
use mathlib.Core.Path.{fun_ext, ap₂}
use mathlib.Core.List.{map}
use distributed_grpc_task_ma.Types.{Task}
use distributed_grpc_task_ma.Prelude.{
  false, ℕ, ◌<◌, ◌≤◌, ◌≡◌, refl, String, List, some, get_or, set, length, arith, ◌==◌,
  if◌then◌else◌, get_elem?-get_or, get_or-set, length-set, Perm, ◌∙◌, ap, Option, none,
  exchange-perm,
}
use distributed_grpc_task_ma.Prelude.Maps.{find}
use distributed_grpc_task_ma.Prelude.Outcome.{done}
use distributed_grpc_task_ma.Heap.Order.{Behaves, IsHeap, Shuffled, moved, still}
use distributed_grpc_task_ma.Queue.{
  Rank, PriorityQueue, TaskItem, rank, precedes, less, swap, methods, set_index,
}

-- the address at position `i`, and the item there
abbrev pub address : PriorityQueue → ℕ → ℕ
address q i = get_or q.items i 0

abbrev pub item_at : PriorityQueue → ℕ → TaskItem
item_at q i = q.cells (address q i)

abbrev pub exchange : PriorityQueue → ℕ → ℕ → PriorityQueue
exchange q i j =
    let a = address q i in
    let b = address q j in
    record q {
      items = set (set q.items i b) j a;
      cells = set_index (set_index q.cells b (some i)) a (some j);
    }

module _ (q : PriorityQueue) (i j : ℕ) (hi : i < length q.items) (hj : j < length q.items) where
  pub less-done : less q i j ≡ done (precedes (rank (item_at q i)) (rank (item_at q j)))
  unfolding less
  less-done = rw (get_elem?-get_or q.items i 0 hi, get_elem?-get_or q.items j 0 hj)

  pub swap-done : swap q i j ≡ done (exchange q i j)
  unfolding swap
  swap-done = rw (get_elem?-get_or q.items i 0 hi, get_elem?-get_or q.items j 0 hj)

  pub address-exchange :
      (c : ℕ)
      → address (exchange q i j) c
        ≡ (if j == c then address q i else if i == c then address q j else address q c)
  address-exchange c = rw (
    get_or-set (set q.items i (address q j)) j c (address q i) 0 (rw length-set hj),
    get_or-set q.items i c (address q j) 0 hi,
  )

  pub key-exchange :
      (c : ℕ)
      → rank (item_at (exchange q i j) c) ≡ (
          if j == c
          then rank (item_at q i)
          else if i == c
          then rank (item_at q j)
          else rank (item_at q c))
  key-exchange c = ground (arith, address-exchange c)

pub length-exchange : (q : PriorityQueue) (i j : ℕ) → length (exchange q i j).items ≡ length q.items
length-exchange q i j = rw (length-set, length-set)

-- Less and Swap of the queue meet the contract of heap.Interface.
abbrev pub queue-Behaves : Behaves methods precedes
queue-Behaves = record {
  size = λ q. length q.items;
  key = λ q i. rank (item_at q i);
  exchange = exchange;
  less-done = less-done;
  swap-done = swap-done;
  size-exchange = length-exchange;
  key-exchange = λ q i j c hi hj. key-exchange q i j hi hj c;
}

abbrev pub IsOrdered : PriorityQueue → Type 0
IsOrdered q = IsHeap queue-Behaves (length q.items) q

-- Each item in the queue knows its position and has its task's priority; a mapped id leads to an item
-- in the queue with a task of that id; addresses that were not given out are not in use.
pub record IsLinked (q : PriorityQueue) : Type 0 where
  pub indexed : (i : ℕ) → i < length q.items → (item_at q i).index ≡ some i
  pub ranked : (i : ℕ) → i < length q.items → (item_at q i).priority ≡ (item_at q i).task.priority
  pub allocated : (i : ℕ) → i < length q.items → address q i < q.next
  pub mapped :
      (id : String) (p : ℕ)
      → find id q.task_map ≡ some p
      → (i : ℕ) × (i < length q.items) × (address q i ≡ p) × ((q.cells p).task.id ≡ id)

-- what does not change as elements trade places
pub record IsSame (q r : PriorityQueue) : Type 0 where
  pub mu : r.mu ≡ q.mu
  pub task_map : r.task_map ≡ q.task_map
  pub next : r.next ≡ q.next
  pub tasks : (p : ℕ) → (r.cells p).task ≡ (q.cells p).task

pub exchange-IsSame : (q : PriorityQueue) (i j : ℕ) → IsSame q (exchange q i j)
exchange-IsSame q i j = record {
  mu = refl;
  task_map = refl;
  next = refl;
  tasks = λ p. ground arith;
}

module _ (q : PriorityQueue) (i j : ℕ) (hi : i < length q.items) (hj : j < length q.items)
    (v : IsLinked q) where
  exchange-indexed : (c : ℕ) → c < length q.items → (item_at (exchange q i j) c).index ≡ some c
  exchange-indexed c hc =
      ground (arith, address-exchange q i j hi hj c, v.indexed i hi, v.indexed j hj, v.indexed c hc)

  pub exchange-IsLinked : IsLinked (exchange q i j)
  exchange-IsLinked =
      let size = length-exchange q i j in
      let at = address-exchange q i j hi hj in
      record {
        indexed = λ c hc. exchange-indexed c (omega arith);
        ranked = λ c hc. ground (arith, at c, v.ranked i hi, v.ranked j hj, v.ranked c);
        allocated = λ c hc. ground (arith, at c, v.allocated i hi, v.allocated j hj, v.allocated c);
        mapped = λ id p e.
            let (c, hc, live, name) = v.mapped id p e in
            (
              (if c == i then j else if c == j then i else c),
              ground arith,
              ground (arith, at c, at i, at j),
              ground arith,
            );
      }

-- What exchanges among the first `n` elements keep.
pub record IsKept (n : ℕ) (q r : PriorityQueue) : Type 0 where
  pub linked : IsLinked q → IsLinked r
  pub same : IsSame q r
  pub perm : Perm r.items q.items
  pub beyond : (c : ℕ) → n ≤ c → address r c ≡ address q c

exchange-beyond :
    (n : ℕ) (q : PriorityQueue) (i j c : ℕ)
    → i < n
    → j < n
    → n ≤ length q.items
    → n ≤ c
    → address (exchange q i j) c ≡ address q c
exchange-beyond n q i j c hi hj le hc =
    ground (arith, address-exchange q i j (omega arith) (omega arith) c)

pub Shuffled-IsKept :
    {n : ℕ} {q r : PriorityQueue} → n ≤ length q.items → Shuffled queue-Behaves n q r → IsKept n q r
Shuffled-IsKept le still = record {
  linked = λ v. v;
  same = record { mu = refl; task_map = refl; next = refl; tasks = λ p. refl };
  perm = Perm.rfl;
  beyond = λ c hc. refl;
}
Shuffled-IsKept {n} le (moved {s = q} i j hi hj more) =
    let rest = Shuffled-IsKept (omega (arith, length-exchange q i j)) more in
    let first = exchange-IsSame q i j in
    record {
      linked = λ v. rest.linked (exchange-IsLinked q i j (omega arith) (omega arith) v);
      same = record {
        mu = rest.same.mu;
        task_map = rest.same.task_map;
        next = rest.same.next;
        tasks = λ p. rest.same.tasks p ∙ first.tasks p;
      };
      perm = Perm.trans rest.perm (exchange-perm q.items i j 0 (omega arith) (omega arith));
      beyond = λ c hc. rest.beyond c hc ∙ exchange-beyond n q i j c hi hj le hc;
    }

-- the queue is a heap with its links in place
pub record IsValid (q : PriorityQueue) : Type 0 where
  pub linked : IsLinked q
  pub ordered : IsOrdered q

-- the task of the item at an address
abbrev pub task_of : PriorityQueue → ℕ → Task
task_of q p = (q.cells p).task

-- the tasks in the queue, in the order of the slice
abbrev pub tasks : PriorityQueue → List Task
tasks q = map (λ p. (q.cells p).task) q.items

pub tasks-perm :
    {q r : PriorityQueue} → IsSame q r → Perm r.items q.items → Perm (tasks r) (tasks q)
tasks-perm {q} {r} same p = rw (fun_ext same.tasks) (Perm.map (λ a. (q.cells a).task) p)

-- what an optional pointer points to
abbrev pub deref : (ℕ → Task) → Option ℕ → Option Task
deref f none = none
deref f (some p) = some (f p)

-- the task that the map gives for an id
abbrev pub named : PriorityQueue → String → Option Task
named q id = deref (λ p. (q.cells p).task) (find id q.task_map)

pub named-IsSame : {q r : PriorityQueue} (id : String) → IsSame q r → named r id ≡ named q id
named-IsSame id same = ap₂ deref (fun_ext same.tasks) (ap (find id) same.task_map)

-- what tasks are ordered by in the queue
abbrev pub task_rank : Task → Rank
task_rank t = record { priority = t.priority; created_at = t.created_at }

-- the task at the root of the tree
abbrev pub root_task : PriorityQueue → Task
root_task q = (item_at q 0).task

-- no task in the queue comes before the one at its root
abbrev pub IsFirst : PriorityQueue → Type 0
IsFirst q =
    (i : ℕ)
    → i < length q.items
    → precedes (task_rank (item_at q i).task) (task_rank (root_task q)) ≡ false
