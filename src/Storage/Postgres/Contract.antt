-- ===== src/Storage/Postgres/Contract.antt =====
-- What the statements do in a PostgreSQL database that answers, as its manual says, and what Scan makes
-- of the columns that they fill. The tables hold for each primary key the row, if there is one.
use mathlib.Core.Option.{map as option_map}
use distributed_grpc_task_ma.Prelude.{ℕ, ◌≡◌, String, List, Option, none, some, Bool, true}
use distributed_grpc_task_ma.Prelude.Effects.{Answers, ok}
use distributed_grpc_task_ma.Types.{Time}
use distributed_grpc_task_ma.Storage.Redis.Server.{written}
use distributed_grpc_task_ma.Storage.Postgres.Sql.{
  Database, Scanner, Column, text, json, timestamp, boolean, null, TaskArguments, NodeArguments,
  TaskColumns, NodeColumns, insert_task, insert_node, task_by_id, node_by_id,
}

abbrev pub nullable : Option Time → Column
nullable none = null
nullable (some t) = timestamp t

-- the row that the arguments make
abbrev pub task_row : TaskArguments → TaskColumns
task_row a = record {
  id = text a.id;
  priority = text a.priority;
  payload = json a.payload;
  status = text a.status;
  created_at = timestamp a.created_at;
  started_at = nullable a.started_at;
  completed_at = nullable a.completed_at;
  worker_id = text a.worker_id;
  error = text a.error;
}

-- the arguments as the columns keep them, with the payload `p`
abbrev pub kept : (Time → Time) → List ℕ → TaskArguments → TaskArguments
kept rounded p a = record a {
  payload = p;
  created_at = rounded a.created_at;
  started_at = option_map rounded a.started_at;
  completed_at = option_map rounded a.completed_at;
}

-- ON CONFLICT (id) DO UPDATE sets every column but `created_at`
abbrev pub upserted : Option TaskColumns → TaskArguments → TaskColumns
upserted none a = task_row a
upserted (some old) a = record (task_row a) { created_at = old.created_at }

abbrev pub node_row : NodeArguments → NodeColumns
node_row a = record {
  id = text a.id;
  address = text a.address;
  last_seen = timestamp a.last_seen;
  is_leader = boolean a.is_leader;
}

pub record IsDatabase {D : Type 0} (db : Database D) : Type 0 where
  pub tasks : D → String → Option TaskColumns
  pub nodes : D → String → Option NodeColumns
  -- whether the texts are within the lengths of their columns
  pub fits : TaskArguments → Bool
  pub node_fits : NodeArguments → Bool
  -- what JSONB makes of a text, which it refuses if it is no JSON
  pub jsonb : List ℕ → Option (List ℕ)
  -- what TIMESTAMP keeps of an instant
  pub rounded : Time → Time
  pub insert_task_law :
      (a : TaskArguments) (p : List ℕ) (d : D)
      → fits a ≡ true
      → jsonb a.payload ≡ some p
      → Answers
          (λ _ d'.
            (tasks d' ≡ written a.id (some (upserted (tasks d a.id) (kept rounded p a))) (tasks d))
            × (nodes d' ≡ nodes d))
          (db.exec (insert_task a) d)
  pub task_by_id_law :
      (id : String) (d : D)
      → Answers
          (λ row d'. (row ≡ tasks d id) × (tasks d' ≡ tasks d) × (nodes d' ≡ nodes d))
          (db.query_task (task_by_id id) d)
  pub insert_node_law :
      (a : NodeArguments) (d : D)
      → node_fits a ≡ true
      → Answers
          (λ _ d'.
            (nodes d'
              ≡ written a.id
                  (some (node_row (record a { last_seen = rounded a.last_seen })))
                  (nodes d))
            × (tasks d' ≡ tasks d))
          (db.exec (insert_node a) d)
  pub node_by_id_law :
      (id : String) (d : D)
      → Answers
          (λ row d'. (row ≡ nodes d id) × (nodes d' ≡ nodes d) × (tasks d' ≡ tasks d))
          (db.query_node (node_by_id id) d)

-- JSON is not scanned into a text that is no JSON, such as the bare name of a status
pub record IsScanner (s : Scanner) : Type 0 where
  pub string_law : (t : String) → s.to_string (text t) ≡ ok t
  pub raw_message_law : (b : List ℕ) → s.to_raw_message (json b) ≡ ok b
  pub time_law : (t : Time) → s.to_time (timestamp t) ≡ ok t
  pub null_time_law : (t : Option Time) → s.to_null_time (nullable t) ≡ ok t
  pub bool_law : (b : Bool) → s.to_bool (boolean b) ≡ ok b
