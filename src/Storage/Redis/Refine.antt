-- ===== src/Storage/Redis/Refine.antt =====
-- RedisStorage refines its model: a map from ids to tasks and a list of pending tasks.
use distributed_grpc_task_ma.Prelude.{
  ◌≡◌, refl, ap, ◌∙◌, String, List, [], ◌∷◌, none, some, Option-cases, inl, inr,
}
use distributed_grpc_task_ma.Prelude.Effects.{Answers-result, Result-cases}
use distributed_grpc_task_ma.Types.{Task}
use distributed_grpc_task_ma.Storage.Redis.{
  RedisClient, Json, task_key, queue_key, update_task, get_task, delete_task, decode_all,
}
use distributed_grpc_task_ma.Storage.Redis.Server.{IsServer}
use distributed_grpc_task_ma.Storage.Redis.Tasks.{save_task-written, save_to_queue-written}
use distributed_grpc_task_ma.Storage.Redis.Pending.{
  at_queue, get_queue_tasks_lem, remove_from_queue_lem, decode_all-removal,
}
use distributed_grpc_task_ma.Storage.Redis.Model.{
  Op, saves, updates, queues, reads, deletes, unqueues, lists, act, run_model, step, run,
  RoundTrips, IsEncodable, AreEncodable,
}
use distributed_grpc_task_ma.Storage.Redis.View.{
  decoded, view, contents-kept, view_lem, view-kept, view-written, free-written,
}

module _ {R : Type 0} (r : RedisClient R) (j : Json) (server : IsServer r) where
  -- the model after the step is the step of the model, and a next step finds no text for the queue
  record Simulates (o : Op) (s : R) : Type 0 where
    sees : (step r j o s).0 ≡ (act o (view r j server s)).0
    stays : view r j server (step r j o s).1 ≡ (act o (view r j server s)).1
    free : server.texts (step r j o s).1 queue_key ≡ none

  step-saves :
      (t : Task) (s : R)
      → RoundTrips r j t
      → server.texts s queue_key ≡ none
      → Simulates (saves t) s
  unfolding step act decoded
  step-saves t s (d, e, e') free =
      let (_, s', q, (p, p')) = Answers-result (save_task-written r j server t d s e) in
      record {
        sees = rw (q) refl;
        stays = rw (q, view-written r j server s s' t.id (some d) p p', decoded, e') refl;
        free = rw (q) (free-written r j server s s' t.id (some d) free p);
      }

  step-updates : (t : Task) (s : R) → Simulates (saves t) s → Simulates (updates t) s
  unfolding step act update_task
  step-updates t s m = record { sees = m.sees; stays = m.stays; free = m.free }

  step-deletes : (id : String) (s : R) → server.texts s queue_key ≡ none → Simulates (deletes id) s
  unfolding step act delete_task decoded
  step-deletes id s free =
      let (_, s', q, (p, p')) = Answers-result (server.del_law (task_key id) s) in
      record {
        sees = rw (q) refl;
        stays = rw (q, view-written r j server s s' id none p p', decoded) refl;
        free = rw (q) (free-written r j server s s' id none free p);
      }

  step-queues :
      (t : Task) (s : R)
      → RoundTrips r j t
      → server.texts s queue_key ≡ none
      → Simulates (queues t) s
  unfolding step act decode_all
  step-queues t s (d, e, e') free =
      let (_, s', q, (p, p')) = Answers-result (save_to_queue-written r j server t d s e free) in
      record {
        sees = rw (q) refl;
        stays = rw (q) (
            view_lem r j server s' _ _ (contents-kept r j server s s' p) (
              ap (decode_all j.unmarshal_task) (at_queue r j server (server.lists s) p')
              ∙ rw (decode_all, e') refl));
        free = rw (q) (ap (λ f. f queue_key) p ∙ free);
      }

  step-unqueues :
      (id : String) (s : R) → server.texts s queue_key ≡ none → Simulates (unqueues id) s
  unfolding step act
  step-unqueues id s free =
      let (_, s', q, (l, e)) = Answers-result (remove_from_queue_lem r j server id s free) in
      record {
        sees = rw (q) refl;
        stays = rw (q) (
            view_lem r j server s' _ _ (contents-kept r j server s s' e) (
              ap (decode_all j.unmarshal_task) l
              ∙ decode_all-removal r j id (server.lists s queue_key)));
        free = rw (q) (ap (λ f. f queue_key) e ∙ free);
      }

  step-lists : (s : R) → server.texts s queue_key ≡ none → Simulates lists s
  unfolding step act
  step-lists s free =
      let (_, s', q, (v, p, p')) =
        Answers-result (get_queue_tasks_lem r j server s _ _ refl refl free) in
      record {
        sees = rw (q, v) refl;
        stays = rw (q) (view-kept r j server s s' p p');
        free = rw (q) (ap (λ f. f queue_key) p ∙ free);
      }

  step-reads : (id : String) (s : R) → server.texts s queue_key ≡ none → Simulates (reads id) s
  unfolding step act get_task decoded
  step-reads id s free = elim (Option-cases (server.texts s (task_key id))) [
    | inl missing ↦
        let (e, s', q, p, p') = server.missing_law (task_key id) s missing in
        record {
          sees = rw (q, missing) refl;
          stays = rw (q) (view-kept r j server s s' p p');
          free = rw (q) (ap (λ f. f queue_key) p ∙ free);
        }
    | inr (d, there) ↦
        let (_, s', q, (v, p, p')) = Answers-result (server.get_law (task_key id) d s there) in
        elim (Result-cases (j.unmarshal_task d)) [
          | inl (t, u) ↦ record {
            sees = rw (q, v, u, there, decoded, u) refl;
            stays = rw (q, v, u) (view-kept r j server s s' p p');
            free = rw (q, v, u) (ap (λ f. f queue_key) p ∙ free);
          }
          | inr (x, u) ↦ record {
            sees = rw (q, v, u, there, decoded, u) refl;
            stays = rw (q, v, u) (view-kept r j server s s' p p');
            free = rw (q, v, u) (ap (λ f. f queue_key) p ∙ free);
          }
        ]
  ]

  step-act : (o : Op) (s : R) → IsEncodable r j o → server.texts s queue_key ≡ none → Simulates o s
  step-act (saves t) s v free = step-saves t s v free
  step-act (updates t) s v free = step-updates t s (step-saves t s v free)
  step-act (queues t) s v free = step-queues t s v free
  step-act (reads id) s v free = step-reads id s free
  step-act (deletes id) s v free = step-deletes id s free
  step-act (unqueues id) s v free = step-unqueues id s free
  step-act lists s v free = step-lists s free

  -- If the server answers, the key of the queue holds no text, and JSON decodes what it encodes for
  -- the tasks that are written, then no sequence of SaveTask, UpdateTask, GetTask, DeleteTask,
  -- SaveToQueue, RemoveFromQueue and GetQueueTasks tells the storage from a map from ids to tasks and
  -- a list of tasks.
  pub run-run_model :
      (ops : List Op) (s : R)
      → AreEncodable r j ops
      → server.texts s queue_key ≡ none
      → run r j ops s ≡ run_model ops (view r j server s)
  unfolding run run_model
  run-run_model [] s v free = refl
  run-run_model (o ∷ ops) s (v, vs) free =
      let m = step-act o s v free in
      rw (m.sees, run-run_model ops (step r j o s).1 vs m.free, m.stays) refl
