-- ===== src/Queue.antt =====
-- internal/queue/priority_queue.go: the priority queue, a type that implements heap.Interface.
-- A pointer to a TaskItem is an address; the items and the map hold addresses, and the cells hold
-- what they point to. The mutex is that of one goroutine's view: a lock that is held at the entry
-- of a call is not released while the call waits.
pub mod Ordering
pub mod Linked
pub mod Insert
pub mod Drop
pub mod Take
pub mod Change
pub mod Locking
pub mod Stats
pub mod Reads
pub mod Bag
pub mod Refine
pub mod Sorting
pub mod Tests
use distributed_grpc_task_ma.Prelude.{
  ℕ, zero, suc, ◌+◌, ◌-◌, String, Bool, not, List, [], ◌∷◌, ◌++◌, map, Option, none, some, ℤ, ltb,
  ltb_ℤ, eqb_ℤ, length, get_elem?, get_or, set, take, ◌==◌, if◌then◌else◌,
}
use distributed_grpc_task_ma.Prelude.Maps.{StrMap, find, put, remove as map_remove}
use distributed_grpc_task_ma.Prelude.Outcome.{Outcome, done, panics, hangs, ◌>>=◌, or_panic}
use distributed_grpc_task_ma.Types.{
  Task, Time, Priority, priority_low, priority_medium, priority_high,
}
use distributed_grpc_task_ma.Heap
use distributed_grpc_task_ma.Heap.{Interface}

-- sync.RWMutex: free, held by readers, or held by the writer
pub data Mutex : Type 0 where
  unlocked locked : Mutex
  read_locked : ℕ → Mutex

-- `index` is `none` for the -1 of an item that has left the queue
pub record TaskItem : Type 0 where
  pub task : Task
  pub priority : Priority
  pub index : Option ℕ

pub record PriorityQueue : Type 0 where
  pub mu : Mutex
  pub items : List ℕ
  pub task_map : StrMap ℕ
  pub cells : ℕ → TaskItem
  pub next : ℕ

-- a write through a pointer
abbrev pub write : (ℕ → TaskItem) → ℕ → TaskItem → ℕ → TaskItem
write cells p v q = if p == q then v else cells q

abbrev pub set_index : (ℕ → TaskItem) → ℕ → Option ℕ → ℕ → TaskItem
set_index cells p i = write cells p (record (cells p) { index = i })

-- RLock waits while the writer holds the lock; the matching RUnlock undoes it
abbrev pub read : {A : Type 0} → PriorityQueue → A → Outcome A
read q a = elim q.mu [ locked ↦ hangs | _ ↦ done a ]

abbrev pub lock : PriorityQueue → Outcome PriorityQueue
lock q = elim q.mu [ unlocked ↦ done (record q { mu = locked }) | _ ↦ hangs ]

abbrev pub unlock : PriorityQueue → PriorityQueue
unlock q = record q { mu = unlocked }

unfoldable pub len : PriorityQueue → Outcome ℕ
len q = read q (length q.items)

-- what Less compares items by
pub record Rank : Type 0 where
  pub priority : Priority
  pub created_at : Time

abbrev pub rank : TaskItem → Rank
rank i = record { priority = i.priority; created_at = i.task.created_at }

unfoldable pub precedes : Rank → Rank → Bool
precedes a b =
    if not (eqb_ℤ a.priority b.priority)
    then ltb_ℤ b.priority a.priority
    else ltb a.created_at b.created_at

unfoldable pub less : PriorityQueue → ℕ → ℕ → Outcome Bool
less q i j = do
  a ← or_panic (get_elem? q.items i)
  b ← or_panic (get_elem? q.items j)
  done (precedes (rank (q.cells a)) (rank (q.cells b)))

unfoldable pub swap : PriorityQueue → ℕ → ℕ → Outcome PriorityQueue
swap q i j = do
  b ← or_panic (get_elem? q.items j)
  a ← or_panic (get_elem? q.items i)
  done (record q {
    items = set (set q.items i b) j a;
    cells = set_index (set_index q.cells b (some i)) a (some j);
  })

unfoldable pub push : PriorityQueue → ℕ → Outcome PriorityQueue
push q p = done (record q {
  items = q.items ++ p ∷ [];
  task_map = put (q.cells p).task.id p q.task_map;
  cells = set_index q.cells p (some (length q.items));
})

unfoldable pub pop : PriorityQueue → Outcome (ℕ × PriorityQueue)
pop q =
    let n = length q.items in
    if n == 0 then panics else do
      p ← or_panic (get_elem? q.items (n - 1))
      done (
        p,
        record q {
          items = take (n - 1) q.items;
          task_map = map_remove (q.cells p).task.id q.task_map;
          cells = set_index q.cells p none;
        },
      )

abbrev pub methods : Interface PriorityQueue ℕ
methods = record { len = len; less = less; swap = swap; push = push; pop = pop }

-- `heap.Remove(pq, item.Index)`: the index -1 is out of bounds for Swap, and for Pop if the queue is
-- empty
abbrev pub heap_remove : PriorityQueue → Option ℕ → Outcome (ℕ × PriorityQueue)
heap_remove q none = len q >>= λ _. panics
heap_remove q (some i) = Heap.remove methods q i

-- `heap.Fix(pq, item.Index)`: at -1 both loops stop at once
abbrev pub heap_fix : PriorityQueue → Option ℕ → Outcome PriorityQueue
heap_fix q none = len q >>= λ _. done q
heap_fix q (some i) = Heap.fix methods q i

-- NewPriorityQueue; no pointer is read before it is written
unfoldable pub new_priority_queue : (ℕ → TaskItem) → Outcome PriorityQueue
new_priority_queue cells =
    Heap.init methods (record { mu = unlocked; items = []; task_map = []; cells = cells; next = 0 })

-- Add, between Lock and Unlock
unfoldable pub add_locked : PriorityQueue → Task → Outcome PriorityQueue
add_locked q task =
    let item : TaskItem = record { task = task; priority = task.priority; index = some 0 } in
    let q' = record q { cells = write q.cells q.next item; next = q.next + 1 } in
    Heap.push methods q' q.next

unfoldable pub add : PriorityQueue → Task → Outcome PriorityQueue
unfolding add_locked
add q task = do q' ← lock q; q'' ← add_locked q' task; done (unlock q'')

unfoldable pub get : PriorityQueue → Outcome (Option Task)
get q = read q (elim q.items [ [] ↦ none | p ∷ _ ↦ some (q.cells p).task ])

-- Remove, between Lock and Unlock
unfoldable pub remove_locked : PriorityQueue → Outcome (Option Task × PriorityQueue)
remove_locked q =
    if length q.items == 0
    then done (none, q)
    else Heap.pop methods q >>= (λ (p, q'). done (some (q'.cells p).task, q'))

unfoldable pub remove : PriorityQueue → Outcome (Option Task × PriorityQueue)
unfolding remove_locked
remove q = do q' ← lock q; (t, q'') ← remove_locked q'; done (t, unlock q'')

unfoldable pub get_by_id : PriorityQueue → String → Outcome (Option Task)
get_by_id q id = read q (elim (find id q.task_map) [ none ↦ none | some p ↦ some (q.cells p).task ])

-- RemoveByID, between Lock and Unlock
unfoldable pub remove_by_id_locked : PriorityQueue → String → Outcome (Option Task × PriorityQueue)
remove_by_id_locked q id = elim (find id q.task_map) [
  | none ↦ done (none, q)
  | some p ↦ heap_remove q (q.cells p).index >>= λ (_, q'). done (some (q'.cells p).task, q')
]

unfoldable pub remove_by_id : PriorityQueue → String → Outcome (Option Task × PriorityQueue)
unfolding remove_by_id_locked
remove_by_id q id = do q' ← lock q; (t, q'') ← remove_by_id_locked q' id; done (t, unlock q'')

-- Update, between Lock and Unlock
unfoldable pub update_locked : PriorityQueue → Task → Outcome PriorityQueue
update_locked q task = elim (find task.id q.task_map) [
  | none ↦ done q
  | some p ↦
      let item = record (q.cells p) { task = task; priority = task.priority } in
      heap_fix (record q { cells = write q.cells p item }) (q.cells p).index
]

unfoldable pub update : PriorityQueue → Task → Outcome PriorityQueue
unfolding update_locked
update q task = do q' ← lock q; q'' ← update_locked q' task; done (unlock q'')

unfoldable pub get_all : PriorityQueue → Outcome (List Task)
get_all q = read q (map (λ p. (q.cells p).task) q.items)

pub record QueueStats : Type 0 where
  pub total_tasks : ℕ
  pub high_priority : ℕ
  pub medium_priority : ℕ
  pub low_priority : ℕ

-- the `switch` on `item.Task.Priority`
unfoldable pub count_task : Task → QueueStats → QueueStats
count_task t s =
    if eqb_ℤ t.priority priority_high
    then record s { high_priority = s.high_priority + 1 }
    else if eqb_ℤ t.priority priority_medium
    then record s { medium_priority = s.medium_priority + 1 }
    else if eqb_ℤ t.priority priority_low
    then record s { low_priority = s.low_priority + 1 }
    else s

unfoldable pub count_tasks : List Task → QueueStats → QueueStats
unfolding count_task
count_tasks [] s = s
count_tasks (t ∷ ts) s = count_tasks ts (count_task t s)

unfoldable pub get_stats : PriorityQueue → Outcome QueueStats
unfolding count_tasks
get_stats q = read q (
    count_tasks (map (λ p. (q.cells p).task) q.items) (record {
      total_tasks = length q.items;
      high_priority = 0;
      medium_priority = 0;
      low_priority = 0;
    }))

-- Clear, between Lock and Unlock
unfoldable pub clear_locked : PriorityQueue → Outcome PriorityQueue
clear_locked q = Heap.init methods (record q { items = []; task_map = [] })

unfoldable pub clear : PriorityQueue → Outcome PriorityQueue
unfolding clear_locked
clear q = do q' ← lock q; q'' ← clear_locked q'; done (unlock q'')
