-- ===== src/Storage/Postgres/Sql.antt =====
-- What internal/storage/postgres_storage.go hands to database/sql and its PostgreSQL driver: the SQL
-- statements with their arguments, and the columns of the rows that come back. A constructor of
-- Statement, TaskQuery or NodeQuery is one SQL text of the file.
use distributed_grpc_task_ma.Prelude.{ℕ, String, Bool, List, Option}
use distributed_grpc_task_ma.Prelude.Effects.{Result, M}
use distributed_grpc_task_ma.Types.{Time}

-- a value of a column, by its SQL type: VARCHAR or TEXT, JSONB, TIMESTAMP, BOOLEAN, or NULL
pub data Column : Type 0 where
  text : String → Column
  json : List ℕ → Column
  timestamp : Time → Column
  boolean : Bool → Column
  null : Column

pub record TaskArguments : Type 0 where
  pub id : String
  pub priority : String
  pub payload : List ℕ
  pub status : String
  pub created_at : Time
  pub started_at : Option Time
  pub completed_at : Option Time
  pub worker_id : String
  pub error : String

pub record NodeArguments : Type 0 where
  pub id : String
  pub address : String
  pub last_seen : Time
  pub is_leader : Bool

pub data Statement : Type 0 where
  create : String → Statement
  -- INSERT INTO tasks … ON CONFLICT (id) DO UPDATE of every column but created_at
  insert_task : TaskArguments → Statement
  -- DELETE FROM tasks WHERE id = $1
  delete_task : String → Statement
  -- INSERT INTO queue_tasks (id, task_id, priority, created_at) … ON CONFLICT (id) DO NOTHING
  insert_queue_task : String → String → String → Time → Statement
  -- DELETE FROM queue_tasks WHERE task_id = $1
  delete_queue_task : String → Statement
  -- INSERT INTO nodes … ON CONFLICT (id) DO UPDATE of every column
  insert_node : NodeArguments → Statement
  -- DELETE FROM nodes WHERE id = $1
  delete_node : String → Statement

-- each selects the nine columns of TaskColumns, in their order
pub data TaskQuery : Type 0 where
  -- FROM tasks WHERE id = $1
  task_by_id : String → TaskQuery
  -- FROM tasks ORDER BY created_at DESC
  all_tasks : TaskQuery
  -- FROM tasks WHERE status = $1 ORDER BY created_at DESC
  tasks_by_status : String → TaskQuery
  -- FROM queue_tasks q JOIN tasks t ON q.task_id = t.id ORDER BY q.priority DESC, q.created_at ASC
  queue_tasks : TaskQuery

pub data NodeQuery : Type 0 where
  -- FROM nodes WHERE id = $1
  node_by_id : String → NodeQuery
  -- FROM nodes ORDER BY last_seen DESC
  all_nodes : NodeQuery

pub record TaskColumns : Type 0 where
  pub id : Column
  pub priority : Column
  pub payload : Column
  pub status : Column
  pub created_at : Column
  pub started_at : Column
  pub completed_at : Column
  pub worker_id : Column
  pub error : Column

pub record NodeColumns : Type 0 where
  pub id : Column
  pub address : Column
  pub last_seen : Column
  pub is_leader : Column

-- sql.DB; a query for one row gives `none` where Scan returns sql.ErrNoRows
pub record Database (D : Type 0) : Type 0 where
  pub exec : Statement → M D (Unit {0})
  pub query_task : TaskQuery → M D (Option TaskColumns)
  pub query_tasks : TaskQuery → M D (List TaskColumns)
  pub query_node : NodeQuery → M D (Option NodeColumns)
  pub query_nodes : NodeQuery → M D (List NodeColumns)
  pub ping : M D (Unit {0})
  pub close : M D (Unit {0})

-- the conversions that Scan makes, by the type of the destination
pub record Scanner : Type 0 where
  pub to_string : Column → Result String
  pub to_raw_message : Column → Result (List ℕ)
  pub to_time : Column → Result Time
  pub to_null_time : Column → Result (Option Time)
  pub to_bool : Column → Result Bool
