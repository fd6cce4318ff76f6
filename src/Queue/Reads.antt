-- ===== src/Queue/Reads.antt =====
-- NewPriorityQueue, and the methods that only read.
use distributed_grpc_task_ma.Prelude.{
  ℕ, ◌<◌, ◌≡◌, ◌≢◌, refl, String, List, [], ◌∷◌, Option, none, some, length, arith,
}
use distributed_grpc_task_ma.Prelude.Maps.{find}
use distributed_grpc_task_ma.Prelude.Outcome.{done, Yields, yields}
use distributed_grpc_task_ma.Types.{Task}
use distributed_grpc_task_ma.Heap
use distributed_grpc_task_ma.Queue.{
  PriorityQueue, TaskItem, unlocked, locked, len, new_priority_queue, get, get_by_id,
}
use distributed_grpc_task_ma.Queue.Linked.{item_at, IsValid, tasks, task_of, named, deref, IsFirst}
use distributed_grpc_task_ma.Queue.Take.{root-IsFirst}

-- A new queue is valid, empty and unlocked.
pub new_priority_queue_lem :
    (cells : ℕ → TaskItem)
    → Yields (λ q. IsValid q × (tasks q ≡ []) × (q.mu ≡ unlocked)) (new_priority_queue cells)
unfolding new_priority_queue Heap.init len find
new_priority_queue_lem cells = yields (
  record {
    linked = record {
      indexed = λ i h. absurd (omega arith);
      ranked = λ i h. absurd (omega arith);
      allocated = λ i h. absurd (omega arith);
      mapped = λ id p e. absurd (cc);
    };
    ordered = λ c pos lt le. absurd (omega arith);
  },
  refl,
  refl,
)

-- the first element of a list, if there is one
abbrev pub first : List Task → Option Task
first [] = none
first (t ∷ ts) = some t

-- On a valid queue that no writer holds, Get returns the first of the tasks, if there is any, and no
-- other task comes before it.
pub get_lem :
    (q : PriorityQueue) → IsValid q → q.mu ≢ locked → (get q ≡ done (first (tasks q))) × IsFirst q
unfolding get
get_lem q v free = (ground arith, root-IsFirst q v free)

located :
    (q : PriorityQueue) (id : String) (o : Option ℕ)
    → IsValid q
    → find id q.task_map ≡ o
    → (t : Task) → deref (task_of q) o ≡ some t
    → (t.id ≡ id) × ((i : ℕ) × (i < length q.items) × ((item_at q i).task ≡ t))
located q id none v e t n = absurd (cc)
located q id (some p) v e t n =
    let (i, hi, live, name) = v.linked.mapped id p e in (ground arith, (i, hi, ground arith))

-- On a valid queue that no writer holds, GetByID returns the task that the map gives for the id, which
-- has that id and stands in the queue.
pub get_by_id_lem :
    (q : PriorityQueue) (id : String) (t : Task)
    → IsValid q
    → q.mu ≢ locked
    → named q id ≡ some t
    → (get_by_id q id ≡ done (some t))
      × (t.id ≡ id)
      × ((i : ℕ) × (i < length q.items) × ((item_at q i).task ≡ t))
unfolding get_by_id
get_by_id_lem q id t v free e =
    let (name, place) = located q id (find id q.task_map) v refl t e in (ground arith, name, place)
