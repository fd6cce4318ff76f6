-- ===== src/Storage/Postgres.antt =====
-- internal/storage/postgres_storage.go: PostgresStorage, over a database and the conversions of Scan,
-- which are parameters.
pub mod Sql
pub mod Scan
pub mod Setup
pub mod Contract
pub mod Tasks
pub mod ByStatus
pub mod Nodes
pub mod Tests
use distributed_grpc_task_ma.Prelude.{String, List, Option, none, some}
use distributed_grpc_task_ma.Prelude.Effects.{M, pure, fail, lift, ◌>>=◌}
use distributed_grpc_task_ma.Types.{Task, Status, NodeInfo, priority_string, status_string}
use distributed_grpc_task_ma.Storage.{Storage, task_not_found, node_not_found}
use distributed_grpc_task_ma.Storage.Postgres.Sql
use distributed_grpc_task_ma.Storage.Postgres.Sql.{
  Database, Scanner, TaskArguments, NodeArguments, TaskQuery,
}
use distributed_grpc_task_ma.Storage.Postgres.Scan.{
  scan_task, scan_task_by_status, scan_node, scan_all,
}

unfoldable pub task_arguments : Task → TaskArguments
unfolding priority_string status_string
task_arguments t = record {
  id = t.id;
  priority = priority_string t.priority;
  payload = t.payload;
  status = status_string t.status;
  created_at = t.created_at;
  started_at = t.started_at;
  completed_at = t.completed_at;
  worker_id = t.worker_id;
  error = t.error;
}

unfoldable pub node_arguments : NodeInfo → NodeArguments
node_arguments n = record {
  id = n.id;
  address = n.address;
  last_seen = n.last_seen;
  is_leader = n.is_leader;
}

module _ {D : Type 0} (db : Database D) (s : Scanner) where
  unfoldable pub save_task : Task → M D (Unit {0})
  unfolding task_arguments
  save_task t = db.exec (Sql.insert_task (task_arguments t))

  unfoldable pub get_task : String → M D (Option Task)
  unfolding scan_task
  get_task id = do
    row ← db.query_task (Sql.task_by_id id)
    elim row [ none ↦ fail task_not_found | some c ↦ lift (scan_task s c) >>= (λ t. pure (some t)) ]

  unfoldable pub update_task : Task → M D (Unit {0})
  unfolding save_task
  update_task t = save_task t

  unfoldable pub delete_task : String → M D (Unit {0})
  delete_task id = db.exec (Sql.delete_task id)

  unfoldable pub get_all_tasks : M D (List Task)
  unfolding scan_all scan_task
  get_all_tasks = do rows ← db.query_tasks Sql.all_tasks; lift (scan_all (scan_task s) rows)

  unfoldable pub get_tasks_by_status : Status → M D (List Task)
  unfolding scan_all scan_task_by_status status_string
  get_tasks_by_status status = do
    rows ← db.query_tasks (Sql.tasks_by_status (status_string status))
    lift (scan_all (scan_task_by_status s) rows)

  unfoldable pub save_to_queue : Task → M D (Unit {0})
  unfolding priority_string
  save_to_queue t =
      db.exec (Sql.insert_queue_task t.id t.id (priority_string t.priority) t.created_at)

  unfoldable pub remove_from_queue : String → M D (Unit {0})
  remove_from_queue id = db.exec (Sql.delete_queue_task id)

  unfoldable pub get_queue_tasks : M D (List Task)
  unfolding scan_all scan_task
  get_queue_tasks = do rows ← db.query_tasks Sql.queue_tasks; lift (scan_all (scan_task s) rows)

  unfoldable pub save_node_info : NodeInfo → M D (Unit {0})
  unfolding node_arguments
  save_node_info n = db.exec (Sql.insert_node (node_arguments n))

  unfoldable pub get_node_info : String → M D (Option NodeInfo)
  unfolding scan_node
  get_node_info id = do
    row ← db.query_node (Sql.node_by_id id)
    elim row [ none ↦ fail node_not_found | some c ↦ lift (scan_node s c) >>= (λ n. pure (some n)) ]

  unfoldable pub get_all_nodes : M D (List NodeInfo)
  unfolding scan_all scan_node
  get_all_nodes = do rows ← db.query_nodes Sql.all_nodes; lift (scan_all (scan_node s) rows)

  unfoldable pub delete_node : String → M D (Unit {0})
  delete_node id = db.exec (Sql.delete_node id)

  unfoldable pub ping : M D (Unit {0})
  ping = db.ping

  unfoldable pub close : M D (Unit {0})
  close = db.close

  -- PostgresStorage as a Storage
  unfoldable pub postgres_storage : Storage D
  unfolding save_task get_task update_task delete_task get_all_tasks get_tasks_by_status
      save_to_queue remove_from_queue get_queue_tasks save_node_info get_node_info get_all_nodes
      delete_node ping close
  postgres_storage = record {
    save_task = save_task;
    get_task = get_task;
    update_task = update_task;
    delete_task = delete_task;
    get_all_tasks = get_all_tasks;
    get_tasks_by_status = get_tasks_by_status;
    save_to_queue = save_to_queue;
    remove_from_queue = remove_from_queue;
    get_queue_tasks = get_queue_tasks;
    save_node_info = save_node_info;
    get_node_info = get_node_info;
    get_all_nodes = get_all_nodes;
    delete_node = delete_node;
    ping = ping;
    close = close;
  }
