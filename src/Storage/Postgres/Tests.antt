-- ===== src/Storage/Postgres/Tests.antt =====
-- A database in memory, and the theorems about PostgresStorage and HybridStorage at it.
use distributed_grpc_task_ma.Prelude.{
  ◌≡◌, refl, sym, ap, ℕ, String, Bool, true, List, [], ◌∷◌, Option, none, some,
}
use distributed_grpc_task_ma.Prelude.Effects.{Result, ok, err, new, Answers, answers, ◌>>◌}
use distributed_grpc_task_ma.Types.{Time, status_running, parse_status}
use distributed_grpc_task_ma.Storage.{task_not_found}
use distributed_grpc_task_ma.Storage.Redis.{redis_storage}
use distributed_grpc_task_ma.Storage.Redis.Server.{written}
use distributed_grpc_task_ma.Storage.Postgres.Nodes.{get_node_info-save_node_info}
use distributed_grpc_task_ma.Storage.Tests.{
  node, client, client-IsServer, json as simple, empty, named,
}
use distributed_grpc_task_ma.Storage.Hybrid.{get_task}
use distributed_grpc_task_ma.Storage.Hybrid.Missing.{hybrid_get_task_missing}
use distributed_grpc_task_ma.Storage.Postgres
use distributed_grpc_task_ma.Storage.Postgres.{
  save_task, get_tasks_by_status, save_node_info, get_node_info, postgres_storage,
}
use distributed_grpc_task_ma.Storage.Postgres.Sql.{
  Database, Scanner, Column, text, json, timestamp, boolean, null, Statement, create, insert_task,
  delete_task, insert_queue_task, delete_queue_task, insert_node, delete_node, TaskQuery,
  task_by_id, all_tasks, tasks_by_status, queue_tasks, NodeQuery, node_by_id, all_nodes,
  TaskColumns, NodeColumns,
}
use distributed_grpc_task_ma.Storage.Postgres.Scan.{Ensures}
use distributed_grpc_task_ma.Storage.Postgres.Contract.{
  IsDatabase, IsScanner, upserted, kept, node_row,
}
use distributed_grpc_task_ma.Storage.Postgres.Tasks.{persisted, postgres_get_task-save_task}
use distributed_grpc_task_ma.Storage.Postgres.ByStatus.{AllPending, get_tasks_by_status-pending}

pub record Tables : Type 0 where
  pub tasks : String → Option TaskColumns
  pub nodes : String → Option NodeColumns

abbrev pub same : Time → Time
same t = t

abbrev run_statement : Statement → Tables → Tables
run_statement (create q) d = d
run_statement (insert_task a) d = record d {
  tasks = written a.id (some (upserted (d.tasks a.id) (kept same a.payload a))) d.tasks;
}
run_statement (delete_task id) d = record d { tasks = written id none d.tasks }
run_statement (insert_queue_task i t p c) d = d
run_statement (delete_queue_task i) d = d
run_statement (insert_node a) d = record d { nodes = written a.id (some (node_row a)) d.nodes }
run_statement (delete_node id) d = record d { nodes = written id none d.nodes }

abbrev select_task : TaskQuery → Tables → Option TaskColumns
select_task (task_by_id id) d = d.tasks id
select_task all_tasks d = none
select_task (tasks_by_status s) d = none
select_task queue_tasks d = none

abbrev running : TaskColumns
running = record {
  id = text "a";
  priority = text "low";
  payload = json (1 ∷ []);
  status = text "running";
  created_at = timestamp 5;
  started_at = null;
  completed_at = null;
  worker_id = text "";
  error = text "";
}

abbrev select_node : NodeQuery → Tables → Option NodeColumns
select_node (node_by_id id) d = d.nodes id
select_node all_nodes d = none

abbrev pub memory : Database Tables
memory = record {
  exec = λ q d. (ok tt, run_statement q d);
  query_task = λ q d. (ok (select_task q d), d);
  query_tasks = λ q d. (ok (running ∷ []), d);
  query_node = λ q d. (ok (select_node q d), d);
  query_nodes = λ q d. (ok [], d);
  ping = λ d. (ok tt, d);
  close = λ d. (ok tt, d);
}

abbrev or_else : List ℕ → Option (List ℕ) → List ℕ
or_else b none = b
or_else b (some p) = p

abbrev text_of : Result String → String
text_of (ok t) = t
text_of (err e) = ""

abbrev memory-IsDatabase : IsDatabase memory
memory-IsDatabase = record {
  tasks = λ d. d.tasks;
  nodes = λ d. d.nodes;
  fits = λ a. true;
  node_fits = λ a. true;
  jsonb = λ b. some b;
  rounded = same;
  insert_task_law = λ a p d f e. rw (sym (ap (or_else []) e)) (answers (refl, refl));
  task_by_id_law = λ id d. answers (refl, refl, refl);
  insert_node_law = λ a d f. answers (refl, refl);
  node_by_id_law = λ id d. answers (refl, refl, refl);
}

abbrev scan_text : Column → Result String
scan_text (text t) = ok t
scan_text (json b) = ok "{}"
scan_text (timestamp t) = ok ""
scan_text (boolean b) = ok ""
scan_text null = err (new "converting NULL to string is unsupported")

abbrev scan_raw : Column → Result (List ℕ)
scan_raw (text t) = ok []
scan_raw (json b) = ok b
scan_raw (timestamp t) = ok []
scan_raw (boolean b) = ok []
scan_raw null = ok []

abbrev scan_time : Column → Result Time
scan_time (text t) = err (new "unsupported Scan")
scan_time (json b) = err (new "unsupported Scan")
scan_time (timestamp t) = ok t
scan_time (boolean b) = err (new "unsupported Scan")
scan_time null = err (new "unsupported Scan")

abbrev scan_null_time : Column → Result (Option Time)
scan_null_time (text t) = err (new "unsupported Scan")
scan_null_time (json b) = err (new "unsupported Scan")
scan_null_time (timestamp t) = ok (some t)
scan_null_time (boolean b) = err (new "unsupported Scan")
scan_null_time null = ok none

abbrev scan_bool : Column → Result Bool
scan_bool (text t) = err (new "unsupported Scan")
scan_bool (json b) = err (new "unsupported Scan")
scan_bool (timestamp t) = err (new "unsupported Scan")
scan_bool (boolean b) = ok b
scan_bool null = err (new "unsupported Scan")

abbrev pub scanner : Scanner
scanner = record {
  to_string = scan_text;
  to_raw_message = scan_raw;
  to_time = scan_time;
  to_null_time = scan_null_time;
  to_bool = scan_bool;
}

null_time :
    (t : Option Time) → scan_null_time (elim t [ none ↦ null | some u ↦ timestamp u ]) ≡ ok t
null_time none = refl
null_time (some t) = refl

abbrev scanner-IsScanner : IsScanner scanner
scanner-IsScanner = record {
  string_law = λ t. refl;
  raw_message_law = λ b. refl;
  time_law = λ t. refl;
  null_time_law = null_time;
  bool_law = λ b. refl;
}

abbrev pub blank : Tables
blank = record { tasks = λ id. none; nodes = λ id. none }

postgres_get_task-save_task_example :
    Answers
      (λ u _. u ≡ some (persisted same [] 0 (named "a")))
      ((save_task memory scanner (named "a") >> Postgres.get_task memory scanner "a") blank)
unfolding Postgres.task_arguments
postgres_get_task-save_task_example =
    postgres_get_task-save_task memory scanner memory-IsDatabase scanner-IsScanner (named "a") [] 0
      blank refl refl refl

get_tasks_by_status-pending_example :
    Ensures AllPending (get_tasks_by_status memory scanner status_running blank).0
unfolding parse_status
get_tasks_by_status-pending_example =
    get_tasks_by_status-pending memory scanner (λ b t e. rw (sym (ap text_of e)) refl)
      status_running blank (answers ((1 ∷ [], refl), tt))

hybrid_get_task_missing_example :
    let (u, w) =
      get_task (redis_storage client simple) (postgres_storage memory scanner) "a" (empty, blank) in
    (u ≡ err task_not_found) × (w.0.texts ≡ empty.texts) × (w.1.tasks ≡ blank.tasks)
hybrid_get_task_missing_example =
    hybrid_get_task_missing client simple client-IsServer memory scanner memory-IsDatabase
      scanner-IsScanner "a" empty blank refl refl

get_node_info-save_node_info_example :
    Answers
      (λ u _. u ≡ some (record (node "n") { status = ""; last_seen = 0 }))
      ((save_node_info memory scanner (node "n") >> get_node_info memory scanner "n") blank)
get_node_info-save_node_info_example =
    get_node_info-save_node_info memory scanner memory-IsDatabase scanner-IsScanner (node "n") blank
      refl
