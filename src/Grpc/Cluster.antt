-- ===== src/Grpc/Cluster.antt =====
-- internal/grpc/server.go: the handlers that tell of the cluster, the statistics and the node, over the
-- scheduler. The lists of the proto messages are those of Grpc.
use distributed_grpc_task_ma.Prelude.{ℕ, ◌≡◌, ◌≢◌, refl, String, Bool, true, some, ℤ, length}
use distributed_grpc_task_ma.Prelude.Outcome.{Outcome, done, ◌>>=◌}
use distributed_grpc_task_ma.Types.{Time, priority_low, priority_medium, priority_high}
use distributed_grpc_task_ma.Queue.{QueueStats, locked}
use distributed_grpc_task_ma.Queue.Linked.{tasks}
use distributed_grpc_task_ma.Queue.Stats.{count_priority, get_stats_lem, len_lem}
use distributed_grpc_task_ma.Worker.{WorkerMetrics, WorkerPool}
use distributed_grpc_task_ma.Storage.{Storage}
use distributed_grpc_task_ma.Scheduler.{Scheduler, get_worker_metrics}
use distributed_grpc_task_ma.Scheduler.Queries
use distributed_grpc_task_ma.Scheduler.Queries.{get_queue_stats}
use distributed_grpc_task_ma.Grpc.{ProtoClusterInfo, convert_cluster_info, to_int32, unix}

-- the messages QueueStats and WorkerMetrics; the counters of int64 stay bit patterns
pub record ProtoQueueStats : Type 0 where
  pub total_tasks : ℤ
  pub high_priority : ℤ
  pub medium_priority : ℤ
  pub low_priority : ℤ

pub record ProtoWorkerMetrics : Type 0 where
  pub tasks_processed : ℕ
  pub tasks_failed : ℕ
  pub tasks_in_progress : ℕ
  pub worker_count : ℤ
  pub queue_size : ℤ

-- the message GetStatsResponse; the server never sets its error
pub record GetStatsResponse : Type 0 where
  pub queue_stats : ProtoQueueStats
  pub worker_metrics : ProtoWorkerMetrics
  pub success : Bool
  pub error : String

pub record GetClusterInfoResponse : Type 0 where
  pub info : ProtoClusterInfo
  pub success : Bool
  pub error : String

pub record HealthCheckResponse : Type 0 where
  pub status : String
  pub timestamp : ℕ
  pub node_id : String
  pub is_leader : Bool

unfoldable pub get_cluster_info :
    {S : Type 0} → Storage S → String → Scheduler S → GetClusterInfoResponse × Scheduler S
unfolding convert_cluster_info Queries.get_cluster_info
get_cluster_info storage leader s =
    let (info, s') = Queries.get_cluster_info storage leader s in
    (record { info = convert_cluster_info info; success = true; error = "" }, s')

abbrev pub convert_queue_stats : QueueStats → ProtoQueueStats
convert_queue_stats s = record {
  total_tasks = to_int32 s.total_tasks;
  high_priority = to_int32 s.high_priority;
  medium_priority = to_int32 s.medium_priority;
  low_priority = to_int32 s.low_priority;
}

abbrev pub convert_metrics : WorkerMetrics → ProtoWorkerMetrics
convert_metrics m = record {
  tasks_processed = m.tasks_processed;
  tasks_failed = m.tasks_failed;
  tasks_in_progress = m.tasks_in_progress;
  worker_count = to_int32 m.worker_count;
  queue_size = to_int32 m.queue_size;
}

unfoldable pub grpc_get_stats :
    {S : Type 0} → Scheduler S → Outcome (GetStatsResponse × Scheduler S)
unfolding get_queue_stats get_worker_metrics
grpc_get_stats s = do
  stats ← get_queue_stats s
  (metrics, s') ← get_worker_metrics s
  done (
    record {
      queue_stats = convert_queue_stats stats.queue;
      worker_metrics = convert_metrics metrics;
      success = true;
      error = "";
    },
    s',
  )

unfoldable pub health_check : {S : Type 0} → Time → Scheduler S → HealthCheckResponse
health_check now s = record {
  status = "healthy";
  timestamp = unix now;
  node_id = Queries.get_node_id s;
  is_leader = Queries.is_leader s;
}

-- On a scheduler that was started, at a queue that no writer holds, GetStats answers with the number of
-- all tasks in the queue and of those of each priority, as an int32, and with the counters of the workers
-- as they are and the same number of tasks.
grpc_get_stats_lem :
    {S : Type 0} (s : Scheduler S) (p : WorkerPool)
    → s.worker_pool ≡ some p
    → s.queue.mu ≢ locked
    → let n = length (tasks s.queue) in
      let m : WorkerMetrics = record p.metrics { queue_size = n } in
      grpc_get_stats s
      ≡ done (
        record {
          queue_stats = record {
            total_tasks = to_int32 n;
            high_priority = to_int32 (count_priority priority_high (tasks s.queue));
            medium_priority = to_int32 (count_priority priority_medium (tasks s.queue));
            low_priority = to_int32 (count_priority priority_low (tasks s.queue));
          };
          worker_metrics = convert_metrics m;
          success = true;
          error = "";
        },
        record s { worker_pool = some (record p { metrics = m }) },
      )
unfolding grpc_get_stats get_queue_stats get_worker_metrics
grpc_get_stats_lem s p e free = rw (get_stats_lem s.queue free, e, len_lem s.queue free) refl
