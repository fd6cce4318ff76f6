-- ===== src/Storage/Postgres/ByStatus.antt =====
-- GetTasksByStatus of PostgresStorage, which scans the payload into the status and the status into the
-- payload.
use distributed_grpc_task_ma.Prelude.{◌≡◌, sym, ap, ◌∙◌, ℕ, String, List, [], ◌∷◌}
use distributed_grpc_task_ma.Prelude.Effects.{ok, Answers, Answers-result}
use distributed_grpc_task_ma.Types.{Task, Status, status_pending, status_string, parse_status}
use distributed_grpc_task_ma.Storage.Postgres.{get_tasks_by_status}
use distributed_grpc_task_ma.Storage.Postgres.Sql.{
  Database, Scanner, json, TaskColumns, tasks_by_status,
}
use distributed_grpc_task_ma.Storage.Postgres.Scan.{
  scan_task_by_status, scan_rest, scan_all, Ensures, Ensures-bind,
}

-- every payload is a JSONB column
abbrev pub AllJson : List TaskColumns → Type 0
AllJson [] = Unit {0}
AllJson (c ∷ cs) = ((b : List ℕ) × (c.payload ≡ json b)) × AllJson cs

abbrev pub AllPending : List Task → Type 0
AllPending [] = Unit {0}
AllPending (t ∷ ts) = (t.status ≡ status_pending) × AllPending ts

abbrev pub IsPending : Task → Type 0
IsPending t = t.status ≡ status_pending

-- JSON is never the bare name of a status
abbrev pub NamesNoStatus : Scanner → Type 0
NamesNoStatus s =
    (b : List ℕ) (t : String) → s.to_string (json b) ≡ ok t → parse_status t ≡ status_pending

module _ (s : Scanner) (json_law : NamesNoStatus s) where
  scan_rest-IsPending :
      (id priority status : String) (payload : List ℕ) (c : TaskColumns)
      → parse_status status ≡ status_pending
      → Ensures IsPending (scan_rest s id priority payload status c)
  unfolding scan_rest
  scan_rest-IsPending id priority status payload c e =
      Ensures-bind IsPending (s.to_time c.created_at) _ λ _ _.
        Ensures-bind IsPending (s.to_null_time c.started_at) _ λ _ _.
          Ensures-bind IsPending (s.to_null_time c.completed_at) _ λ _ _.
            Ensures-bind IsPending (s.to_string c.worker_id) _
              λ _ _. Ensures-bind IsPending (s.to_string c.error) _ λ _ _. e

  scan_task_by_status-IsPending :
      (c : TaskColumns) (b : List ℕ)
      → c.payload ≡ json b
      → Ensures IsPending (scan_task_by_status s c)
  unfolding scan_task_by_status
  scan_task_by_status-IsPending c b e = Ensures-bind IsPending (s.to_string c.id) _ λ id _.
      Ensures-bind IsPending (s.to_string c.priority) _ λ priority _.
        Ensures-bind IsPending (s.to_string c.payload) _ λ status q.
          Ensures-bind IsPending (s.to_raw_message c.status) _ λ payload _.
            scan_rest-IsPending id priority status payload c
              (json_law b status (ap s.to_string (sym e) ∙ q))

  scan_all-pending :
      (cs : List TaskColumns)
      → AllJson cs
      → Ensures AllPending (scan_all (scan_task_by_status s) cs)
  unfolding scan_all
  scan_all-pending [] h = tt
  scan_all-pending (c ∷ cs) ((b, e), h) = Ensures-bind AllPending (scan_task_by_status s c) _ λ t p.
      Ensures-bind AllPending (scan_all (scan_task_by_status s) cs) _
        λ ts q. (rw p at (scan_task_by_status-IsPending c b e), rw q at (scan_all-pending cs h))

module _ {D : Type 0} (db : Database D) (s : Scanner) where
  -- If every payload that the database returns is JSON, and no JSON is the bare name of a status, then
  -- GetTasksByStatus, asked for whatever status, fails or returns tasks that all say that they are
  -- pending.
  pub get_tasks_by_status-pending :
      NamesNoStatus s
      → (status : Status) (d : D)
      → Answers (λ cs _. AllJson cs) (db.query_tasks (tasks_by_status (status_string status)) d)
      → Ensures AllPending (get_tasks_by_status db s status d).0
  unfolding get_tasks_by_status
  get_tasks_by_status-pending json_law status d rows =
      let (cs, d', q, h) = Answers-result rows in rw (q) (scan_all-pending s json_law cs h)
