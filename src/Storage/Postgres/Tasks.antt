-- ===== src/Storage/Postgres/Tasks.antt =====
-- PostgresStorage with a database that answers: what comes back of a task that was saved.
use mathlib.Core.Option.{map as option_map}
use distributed_grpc_task_ma.Prelude.{
  ◌≡◌, refl, ap, ◌∙◌, ℕ, String, true, List, [], Option, none, some, arith,
}
use distributed_grpc_task_ma.Prelude.Effects.{
  Answers, answers, Answers-follow, Answers-result, ok, err, ◌>>◌,
}
use distributed_grpc_task_ma.Types.{
  Task, Time, priority_string, parse_priority, status_string, parse_status,
}
use distributed_grpc_task_ma.Storage.{task_not_found}
use distributed_grpc_task_ma.Storage.Redis.Tasks.{written-same}
use distributed_grpc_task_ma.Storage.Postgres.{save_task, get_task, task_arguments}
use distributed_grpc_task_ma.Storage.Postgres.Sql.{
  Database, Scanner, timestamp, TaskArguments, TaskColumns,
}
use distributed_grpc_task_ma.Storage.Postgres.Scan.{scan_task, scan_rest}
use distributed_grpc_task_ma.Storage.Postgres.Contract.{
  IsDatabase, IsScanner, task_row, upserted, kept,
}

-- a task as the table holds it: the names of its priority and its status, the instants as TIMESTAMP keeps
-- them, and the time at which its id was saved first
abbrev pub persisted : (Time → Time) → List ℕ → Time → Task → Task
persisted rounded p first t = record t {
  priority = parse_priority (priority_string t.priority);
  payload = p;
  status = parse_status (status_string t.status);
  created_at = first;
  started_at = option_map rounded t.started_at;
  completed_at = option_map rounded t.completed_at;
  dependencies = [];
  timeout = none;
  max_duration = none;
}

upserted-row :
    (old : Option TaskColumns) (a : TaskArguments) (first : Time)
    → (upserted old a).created_at ≡ timestamp first
    → upserted old a ≡ task_row (record a { created_at = first })
upserted-row none a first e = ground (arith)
upserted-row (some old) a first e = ground (arith)

module _ (s : Scanner) (scans : IsScanner s) where
  scan_task-row :
      (rounded : Time → Time) (p : List ℕ) (t : Task) (first : Time)
      → scan_task s (task_row (record (kept rounded p (task_arguments t)) { created_at = first }))
        ≡ ok (persisted rounded p first t)
  unfolding scan_task scan_rest task_arguments
  scan_task-row rounded p t first =
      simp (scans.string_law, scans.raw_message_law, scans.time_law, scans.null_time_law)

module _ {D : Type 0} (db : Database D) (s : Scanner) (holds : IsDatabase db)
    (scans : IsScanner s) where
  get_task-row :
      (id : String) (c : TaskColumns) (t : Task) (d : D)
      → holds.tasks d id ≡ some c
      → scan_task s c ≡ ok t
      → Answers (λ u _. u ≡ some t) (get_task db s id d)
  unfolding get_task
  get_task-row id c t d e e' =
      Answers-follow (holds.task_by_id_law id d) λ row d' q. rw (q.0 ∙ e, e') (answers refl)

  -- If the database answers, the task's texts fit their columns and its payload is JSON, then SaveTask
  -- and GetTask with the task's id succeed, and give the task with its payload as JSONB keeps it, its
  -- instants as TIMESTAMP keeps them, the time at which the id was saved first, with what its priority
  -- and its status are read back as, and without its dependencies, its timeout and its longest duration.
  pub postgres_get_task-save_task :
      (t : Task) (p : List ℕ) (first : Time) (d : D)
      → holds.fits (task_arguments t) ≡ true
      → holds.jsonb t.payload ≡ some p
      → (upserted (holds.tasks d t.id) (kept holds.rounded p (task_arguments t))).created_at
        ≡ timestamp first
      → Answers
          (λ u _. u ≡ some (persisted holds.rounded p first t))
          ((save_task db s t >> get_task db s t.id) d)
  unfolding save_task get_task
  postgres_get_task-save_task t p first d fits json e =
      let a = kept holds.rounded p (task_arguments t) in
      Answers-follow (holds.insert_task_law (task_arguments t) p d fits json) λ _ d' (q, _).
        get_task-row t.id (task_row (record a { created_at = first }))
          (persisted holds.rounded p first t) d'
          (ap (λ f. f t.id) q
            ∙ written-same t.id _ (holds.tasks d)
            ∙ ap some (upserted-row (holds.tasks d t.id) a first e))
          (scan_task-row s scans holds.rounded p t first)

  pub get_task_missing :
      (id : String) (d : D)
      → holds.tasks d id ≡ none
      → (d' : D) × (get_task db s id d ≡ (err task_not_found, d'))
        × (holds.tasks d' ≡ holds.tasks d)
  unfolding get_task
  get_task_missing id d e =
      let (row, d', q, p) = Answers-result (holds.task_by_id_law id d) in
      (d', rw (q, p.0 ∙ e) refl, p.1)
