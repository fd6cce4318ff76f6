-- ===== src/Queue/Stats.antt =====
-- GetStats, against counting the tasks of each priority.
use distributed_grpc_task_ma.Prelude.{
  ℕ, ◌+◌, ◌≡◌, ◌≢◌, length-map, List, [], ◌∷◌, eqb_ℤ, length, select, arith,
}
use distributed_grpc_task_ma.Prelude.Outcome.{done}
use distributed_grpc_task_ma.Types.{Task, Priority, priority_low, priority_medium, priority_high}
use distributed_grpc_task_ma.Queue.{
  PriorityQueue, locked, QueueStats, count_task, count_tasks, get_stats, len,
}
use distributed_grpc_task_ma.Queue.Linked.{tasks, task_of}

-- how many tasks have the priority
abbrev pub count_priority : Priority → List Task → ℕ
count_priority p ts = length (select (λ t. eqb_ℤ t.priority p) ts)

count_tasks_lem :
    (ts : List Task) (s : QueueStats)
    → count_tasks ts s ≡ record {
      total_tasks = s.total_tasks;
      high_priority = s.high_priority + count_priority priority_high ts;
      medium_priority = s.medium_priority + count_priority priority_medium ts;
      low_priority = s.low_priority + count_priority priority_low ts;
    }
unfolding count_tasks
count_tasks_lem [] s = ground arith
count_tasks_lem (t ∷ ts) s = ground (arith, count_tasks_lem ts (count_task t s))

-- On a lock that no writer holds, GetStats counts all tasks in the queue and those of each named
-- priority.
pub get_stats_lem :
    (q : PriorityQueue)
    → q.mu ≢ locked
    → get_stats q
      ≡ done (record {
        total_tasks = length (tasks q);
        high_priority = count_priority priority_high (tasks q);
        medium_priority = count_priority priority_medium (tasks q);
        low_priority = count_priority priority_low (tasks q);
      })
unfolding get_stats
get_stats_lem q e =
    let zeros : QueueStats = record {
      total_tasks = length q.items;
      high_priority = 0;
      medium_priority = 0;
      low_priority = 0;
    } in
    ground (arith, count_tasks_lem (tasks q) zeros, length-map (task_of q) q.items)

-- On a lock that no writer holds, Len returns the number of the tasks.
pub len_lem : (q : PriorityQueue) → q.mu ≢ locked → len q ≡ done (length (tasks q))
unfolding len
len_lem q e = ground (arith, length-map (task_of q) q.items)
