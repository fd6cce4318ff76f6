-- ===== src/Worker/Process.antt =====
-- One call of processTask: what it leaves in the task, in the counters and in the storage.
use Prim.Native.String.{◌++◌}
use distributed_grpc_task_ma.Prelude.{
  ◌≡◌, ℕ, ◌+◌, ◌<◌, String, Bool, true, false, not, some, if◌then◌else◌, arith, refl, inl, inr,
}
use distributed_grpc_task_ma.Prelude.Effects.{Result, ok, err, error_text, Result-cases}
use distributed_grpc_task_ma.Types.{Task, Time, status_running, status_completed, status_failed}
use distributed_grpc_task_ma.Worker.{
  TaskProcessor, TaskStorage, Site, attempt, process_task, enter, leave, count_result, increment,
  decrement, mark_running, mark_finished, store,
}

abbrev pub succeeded : Result (Unit {0}) → Bool
succeeded (ok u) = true
succeeded (err e) = false

abbrev pub one_if : Bool → ℕ
one_if b = if b then 1 else 0

-- the task when the worker with the number starts it
abbrev pub begun : (ℕ → String) → Time → ℕ → Task → Task
begun decimal started id t = record t {
  status = status_running;
  started_at = some started;
  worker_id = "worker-" ++ decimal id;
}

-- the task when the processor has returned
abbrev pub ended : Time → Result (Unit {0}) → Task → Task
ended finished (ok u) t = record t { status = status_completed; completed_at = some finished }
ended finished (err e) t = record t { status = status_failed; error = error_text e }

module _ {S : Type 0} (decimal : ℕ → String) (processor : TaskProcessor S)
    (storage : TaskStorage S) where
  -- what the processor makes of the task that was begun, once the storage was told of it
  abbrev pub outcome : Time → Task → Site S → Result (Unit {0}) × (Task × S)
  outcome started t site =
      let t' = begun decimal started site.worker.id t in
      processor.process_task (t', (storage.update_task t' site.world).1)

  pub record IsProcessed (started finished : Time) (t : Task) (site : Site S) (t' : Task)
      (after : Site S) : Type 0 where
    pub task : t' ≡ ended finished (outcome started t site).0 (outcome started t site).1.0
    pub world : after.world ≡ (storage.update_task t' (outcome started t site).1.1).1
    pub in_progress : after.metrics.tasks_in_progress ≡ site.metrics.tasks_in_progress
    pub processed :
        after.metrics.tasks_processed
        ≡ site.metrics.tasks_processed + one_if (succeeded (outcome started t site).0)
    pub failed :
        after.metrics.tasks_failed
        ≡ site.metrics.tasks_failed + one_if (not (succeeded (outcome started t site).0))
    pub idle : after.worker.processing ≡ false

  -- Where the counters do not overflow, the task is stored as running, given to the processor, and stored
  -- again as completed if the processor succeeded and as failed, with the error, if not, whether the
  -- storage takes it or not. One more task has been processed or failed accordingly, as many are in
  -- progress as before, and the worker is not processing.
  pub process_task_lem :
      (started finished : Time) (t : Task) (site : Site S)
      → site.metrics.tasks_in_progress < 18446744073709551615
      → site.metrics.tasks_processed < 18446744073709551615
      → site.metrics.tasks_failed < 18446744073709551615
      → let (t', after) = process_task decimal processor storage started finished t site in
        IsProcessed started finished t site t' after
  unfolding process_task enter leave count_result increment decrement attempt mark_running
      mark_finished store
  process_task_lem started finished t site p q r = elim (Result-cases (outcome started t site).0) [
    | inl (u, e) ↦ record {
      task = rw (e) refl;
      world = rw (e) refl;
      in_progress = rw (e) (ground (arith));
      processed = rw (e) (ground (arith));
      failed = rw (e) (ground (arith));
      idle = refl;
    }
    | inr (x, e) ↦ record {
      task = rw (e) refl;
      world = rw (e) refl;
      in_progress = rw (e) (ground (arith));
      processed = rw (e) (ground (arith));
      failed = rw (e) (ground (arith));
      idle = refl;
    }
  ]
