-- ===== src/Queue/Locking.antt =====
-- Which calls return. The methods that write hold the write lock while container/heap calls Len, and
-- Len asks for the read lock of the same mutex.
use distributed_grpc_task_ma.Prelude.{
  ◌≡◌, String, Bool, true, false, none, some, length, arith, ◌==◌, if◌then◌else◌,
}
use distributed_grpc_task_ma.Prelude.Maps.{find}
use distributed_grpc_task_ma.Prelude.Outcome.{done, hangs}
use distributed_grpc_task_ma.Types.{Task}
use distributed_grpc_task_ma.Heap
use distributed_grpc_task_ma.Queue.{
  PriorityQueue, unlocked, len, push, add, remove, remove_by_id, update, clear,
}

-- Add never returns, whatever the queue and the task.
pub add-hangs : (q : PriorityQueue) (task : Task) → add q task ≡ hangs
unfolding add Heap.push push len
add-hangs q task = ground arith

-- Clear never returns.
pub clear-hangs : (q : PriorityQueue) → clear q ≡ hangs
unfolding clear Heap.init len
clear-hangs q = ground arith

-- whether an id is mapped to an item
abbrev pub is_mapped : PriorityQueue → String → Bool
is_mapped q id = elim (find id q.task_map) [ none ↦ false | some _ ↦ true ]

-- Remove on a free lock returns only if the queue is empty, with no task and the queue as it was, and
-- never returns otherwise.
pub remove-hangs :
    (q : PriorityQueue)
    → q.mu ≡ unlocked
    → remove q ≡ (if length q.items == 0 then done (none, q) else hangs)
unfolding remove Heap.pop len
remove-hangs q e = ground arith

-- RemoveByID on a free lock returns only if the id is not mapped, with no task and the queue as it
-- was, and never returns otherwise.
pub remove_by_id-hangs :
    (q : PriorityQueue) (id : String)
    → q.mu ≡ unlocked
    → remove_by_id q id ≡ (if is_mapped q id then hangs else done (none, q))
unfolding remove_by_id Heap.remove len
remove_by_id-hangs q id e = ground arith

-- Update on a free lock returns only if the task's id is not mapped, with the queue as it was, and
-- never returns otherwise.
pub update-hangs :
    (q : PriorityQueue) (task : Task)
    → q.mu ≡ unlocked
    → update q task ≡ (if is_mapped q task.id then hangs else done q)
unfolding update Heap.fix len
update-hangs q task e = ground arith
