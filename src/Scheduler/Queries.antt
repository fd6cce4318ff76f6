-- ===== src/Scheduler/Queries.antt =====
-- internal/scheduler/scheduler.go: the calls that a scheduler passes on to its storage, what it says of
-- the cluster, and how it reports itself.
use distributed_grpc_task_ma.Prelude.{ℕ, Bool, String, List, [], Option, length}
use distributed_grpc_task_ma.Prelude.Effects.{Result, ok, err}
use distributed_grpc_task_ma.Prelude.Outcome.{Outcome, done, ◌>>=◌}
use distributed_grpc_task_ma.Queue.{QueueStats, get_stats}
use distributed_grpc_task_ma.Types.{
  Task, Time, Status, NodeInfo, ClusterInfo, status_pending, status_running,
}
use distributed_grpc_task_ma.Storage.{Storage}
use distributed_grpc_task_ma.Scheduler.{Scheduler, stored}

abbrev pub items_or_none : {A : Type 0} → Result (List A) → List A
items_or_none (ok items) = items
items_or_none (err e) = []

module _ {S : Type 0} (storage : Storage S) where
  unfoldable pub get_task : String → Scheduler S → Result (Option Task) × Scheduler S
  get_task id s = stored (storage.get_task id) s

  unfoldable pub get_tasks_by_status : Status → Scheduler S → Result (List Task) × Scheduler S
  get_tasks_by_status status s = stored (storage.get_tasks_by_status status) s

  unfoldable pub get_all_tasks : Scheduler S → Result (List Task) × Scheduler S
  get_all_tasks s = stored storage.get_all_tasks s

  unfoldable pub update_task : Task → Scheduler S → Result (Unit {0}) × Scheduler S
  update_task t s = stored (storage.update_task t) s

  unfoldable pub delete_task : String → Scheduler S → Result (Unit {0}) × Scheduler S
  delete_task id s = stored (storage.delete_task id) s

  -- `leader` is what the leader election answers
  unfoldable pub get_cluster_info : String → Scheduler S → ClusterInfo × Scheduler S
  unfolding get_all_tasks get_tasks_by_status
  get_cluster_info leader s =
      let (nodes, s1) = stored storage.get_all_nodes s in
      let (all, s2) = get_all_tasks s1 in
      let (pending, s3) = get_tasks_by_status status_pending s2 in
      let (running, s4) = get_tasks_by_status status_running s3 in
      (
        record {
          nodes = items_or_none nodes;
          leader_id = leader;
          total_tasks = length (items_or_none all);
          pending_tasks = length (items_or_none pending);
          running_tasks = length (items_or_none running);
        },
        s4,
      )

  -- the node as it reports itself; an error is only written to the log
  unfoldable pub update_node_info : Time → Scheduler S → Scheduler S
  update_node_info now s =
      let node : NodeInfo = record {
        id = s.node_id;
        address = s.address;
        is_leader = s.is_leader;
        last_seen = now;
        status = "active";
      } in
      (stored (storage.save_node_info node) s).1

-- the map that GetQueueStats makes; the utilization is the quotient of the two numbers
pub record SchedulerStats : Type 0 where
  pub queue : QueueStats
  pub max_queue_size : ℕ
  pub queue_utilization : ℕ × ℕ

unfoldable pub get_queue_stats : {S : Type 0} → Scheduler S → Outcome SchedulerStats
get_queue_stats s = do
  stats ← get_stats s.queue
  done (record {
    queue = stats;
    max_queue_size = s.max_queue_size;
    queue_utilization = (stats.total_tasks, s.max_queue_size);
  })

abbrev pub is_leader : {S : Type 0} → Scheduler S → Bool
is_leader s = s.is_leader

abbrev pub get_node_id : {S : Type 0} → Scheduler S → String
get_node_id s = s.node_id
