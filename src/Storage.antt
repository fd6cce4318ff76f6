-- ===== src/Storage.antt =====
-- internal/storage: where tasks, the queue of pending tasks and the nodes are kept. This module is
-- the interface; Redis and Hybrid implement it.
pub mod Redis
pub mod Hybrid
pub mod Postgres
pub mod Tests
use distributed_grpc_task_ma.Prelude.{String, List, Option}
use distributed_grpc_task_ma.Prelude.Effects.{Error, new, M}
use distributed_grpc_task_ma.Types.{Task, Status, NodeInfo}

abbrev pub task_not_found : Error
task_not_found = new "task not found"

abbrev pub node_not_found : Error
node_not_found = new "node not found"

-- a nil pointer is `none`
pub record Storage (S : Type 0) : Type 0 where
  pub save_task : Task → M S (Unit {0})
  pub get_task : String → M S (Option Task)
  pub update_task : Task → M S (Unit {0})
  pub delete_task : String → M S (Unit {0})
  pub get_all_tasks : M S (List Task)
  pub get_tasks_by_status : Status → M S (List Task)
  pub save_to_queue : Task → M S (Unit {0})
  pub remove_from_queue : String → M S (Unit {0})
  pub get_queue_tasks : M S (List Task)
  pub save_node_info : NodeInfo → M S (Unit {0})
  pub get_node_info : String → M S (Option NodeInfo)
  pub get_all_nodes : M S (List NodeInfo)
  pub delete_node : String → M S (Unit {0})
  pub ping : M S (Unit {0})
  pub close : M S (Unit {0})
