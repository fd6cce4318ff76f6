-- ===== src/Cli/Print.antt =====
-- cmd/cli/main.go: the lines that are printed of an answer.
use Prim.Native.String.{◌++◌}
use distributed_grpc_task_ma.Prelude.{
  ℕ, String, Bool, true, false, List, [], ◌∷◌, ◌++◌ as append, ℤ, pos, sub_ℕ, ltb, not, str_eq,
  if◌then◌else◌,
}
use distributed_grpc_task_ma.Grpc.{
  ProtoPriority, ProtoStatus, ProtoTask, ProtoClusterInfo, ProtoNodeInfo,
}
use distributed_grpc_task_ma.Grpc.Cluster.{GetStatsResponse, HealthCheckResponse}

-- the verbs %d and %s of fmt, for an integer, a priority, a status and bytes
pub record Format : Type 0 where
  pub decimal : ℤ → String
  pub priority_name : ProtoPriority → String
  pub status_name : ProtoStatus → String
  pub bytes : List ℕ → String

-- the int64 that the counters of the workers are bit patterns of
abbrev pub int64 : ℕ → ℤ
int64 n = if ltb n 9223372036854775808 then pos n else sub_ℕ n 18446744073709551616

abbrev pub truth : Bool → String
truth true = "true"
truth false = "false"

module _ (f : Format) where
  unfoldable pub stats_lines : GetStatsResponse → List String
  stats_lines r =
      "=== Queue Statistics ==="
      ∷ ("Total Tasks: " ++ f.decimal r.queue_stats.total_tasks)
      ∷ ("High Priority: " ++ f.decimal r.queue_stats.high_priority)
      ∷ ("Medium Priority: " ++ f.decimal r.queue_stats.medium_priority)
      ∷ ("Low Priority: " ++ f.decimal r.queue_stats.low_priority)
      ∷ ""
      ∷ "=== Worker Metrics ==="
      ∷ ("Tasks Processed: " ++ f.decimal (int64 r.worker_metrics.tasks_processed))
      ∷ ("Tasks Failed: " ++ f.decimal (int64 r.worker_metrics.tasks_failed))
      ∷ ("Tasks In Progress: " ++ f.decimal (int64 r.worker_metrics.tasks_in_progress))
      ∷ ("Worker Count: " ++ f.decimal r.worker_metrics.worker_count)
      ∷ ("Queue Size: " ++ f.decimal r.worker_metrics.queue_size)
      ∷ []

  unfoldable pub submitted_lines : ProtoTask → List String
  submitted_lines t =
      "Task submitted successfully!"
      ∷ ("Task ID: " ++ t.id)
      ∷ ("Priority: " ++ f.priority_name t.priority)
      ∷ ("Status: " ++ f.status_name t.status)
      ∷ []

  -- the lines that printTask leaves out of a task that has not the field
  abbrev pub line_if : Bool → String → List String → List String
  line_if b line rest = if b then line ∷ rest else rest

  unfoldable pub print_task : ProtoTask → List String
  print_task t =
      ("Task ID: " ++ t.id)
      ∷ ("  Priority: " ++ f.priority_name t.priority)
      ∷ ("  Status: " ++ f.status_name t.status)
      ∷ ("  Created At: " ++ f.decimal (pos t.created_at))
      ∷ line_if (ltb 0 t.started_at) ("  Started At: " ++ f.decimal (pos t.started_at)) (
          line_if (ltb 0 t.completed_at) ("  Completed At: " ++ f.decimal (pos t.completed_at)) (
            line_if (not (str_eq t.worker_id "")) ("  Worker ID: " ++ t.worker_id) (
              line_if (not (str_eq t.error "")) ("  Error: " ++ t.error)
                (("  Payload: " ++ f.bytes t.payload) ∷ "" ∷ []))))

  unfoldable pub print_tasks : List ProtoTask → List String
  unfolding print_task
  print_tasks [] = []
  print_tasks (t ∷ ts) = append (print_task t) (print_tasks ts)

  unfoldable pub health_lines : HealthCheckResponse → List String
  health_lines r =
      "Health Check:"
      ∷ ("Status: " ++ r.status)
      ∷ ("Node ID: " ++ r.node_id)
      ∷ ("Is Leader: " ++ truth r.is_leader)
      ∷ ("Timestamp: " ++ f.decimal (pos r.timestamp))
      ∷ []

  -- the loop of showClusterInfo
  unfoldable pub print_nodes : List ProtoNodeInfo → List String
  print_nodes [] = []
  print_nodes (n ∷ ns) =
      ("Node ID: " ++ n.id)
      ∷ ("  Address: " ++ n.address)
      ∷ ("  Is Leader: " ++ truth n.is_leader)
      ∷ ("  Status: " ++ n.status)
      ∷ ("  Last Seen: " ++ f.decimal (pos n.last_seen))
      ∷ ""
      ∷ print_nodes ns

  unfoldable pub info_lines : ProtoClusterInfo → List String
  unfolding print_nodes
  info_lines i =
      "=== Cluster Information ==="
      ∷ ("Leader ID: " ++ i.leader_id)
      ∷ ("Total Tasks: " ++ f.decimal i.total_tasks)
      ∷ ("Pending Tasks: " ++ f.decimal i.pending_tasks)
      ∷ ("Running Tasks: " ++ f.decimal i.running_tasks)
      ∷ ""
      ∷ "=== Nodes ==="
      ∷ print_nodes i.nodes
