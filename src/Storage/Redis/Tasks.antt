-- ===== src/Storage/Redis/Tasks.antt =====
-- RedisStorage with a server that answers: what is saved under an id is what is read from it.
use text.Mathlib.TextLemmas.{append_inj}
use distributed_grpc_task_ma.Prelude.{
  ◌≡◌, ◌≢◌, refl, String, str_eq, false, [], ◌∷◌, none, some, inl, inr, Bool-cases, eq_iff, arith,
  ◌∙◌, ap,
}
use distributed_grpc_task_ma.Prelude.Effects.{
  Answers, answers, Answers-follow, Answers-weaken, ◌>>◌, ok, Answers-wrapped, Result-cases,
}
use distributed_grpc_task_ma.Types.{Task}
use distributed_grpc_task_ma.Storage.Redis.{
  RedisClient, Json, save_task, get_task, task_key, save_to_queue, queue_key,
}
use distributed_grpc_task_ma.Storage.Redis.Server.{IsServer, written}

pub written-same : {A : Type 0} (k : String) (a : A) (f : String → A) → written k a f k ≡ a
written-same k a f = ground (arith, eq_iff k k)

-- GetTask never answers that there is no task without an error.
pub get_task-finds :
    {R : Type 0} (r : RedisClient R) (j : Json) (id : String) (s : R)
    → (get_task r j id s).0 ≢ ok none
unfolding get_task
get_task-finds r j id s e = elim (Result-cases (r.get (task_key id) s).0) [
  | inl (d, q) ↦ elim (Result-cases (j.unmarshal_task d)) [
    | inl (t, u) ↦ ground (arith)
    | inr (x, u) ↦ ground (arith)
  ]
  | inr (x, q) ↦ ground (arith)
]

pub written-other :
    {A : Type 0} (k l : String) (a : A) (f : String → A)
    → str_eq k l ≡ false
    → written k a f l ≡ f l
written-other k l a f e = rw (e) refl

-- no task is kept under the key of the queue
pub task_key-queue_key : (id : String) → str_eq (task_key id) queue_key ≡ false
task_key-queue_key id = elim (Bool-cases (str_eq (task_key id) queue_key)) [
  | inr q ↦ q
  | inl q ↦
      let (heads, _) =
        append_inj {s₁ = "task:"} {s₂ = "queue"} {t₁ = id} {t₂ = ":pending"}
          ((eq_iff (task_key id) queue_key).0 q) refl in
      absurd (ground (arith, ap (λ s. str_eq s "queue") heads))
]

module _ {R : Type 0} (r : RedisClient R) (j : Json) (server : IsServer r) where
  pub get_task-stored :
      (id d : String) (t : Task) (s : R)
      → server.texts s (task_key id) ≡ some d
      → j.unmarshal_task d ≡ ok t
      → Answers
          (λ u s'.
            (u ≡ some t) × (server.texts s' ≡ server.texts s) × (server.lists s' ≡ server.lists s))
          (get_task r j id s)
  unfolding get_task
  get_task-stored id d t s e e' =
      Answers-follow (Answers-wrapped "failed to get task" (server.get_law (task_key id) d s e))
        λ _ _ q. rw (q.0, e') (answers (refl, q.1, q.2))

  pub save_task-written :
      (t : Task) (d : String) (s : R)
      → j.marshal_task t ≡ ok d
      → Answers
          (λ _ s'.
            (server.texts s' ≡ written (task_key t.id) (some d) (server.texts s))
            × (server.lists s' ≡ written (task_key t.id) [] (server.lists s)))
          (save_task r j t s)
  unfolding save_task
  save_task-written t d s e = rw (e) (server.set_law (task_key t.id) d s)

  pub save_task_lem :
      (t : Task) (d : String) (s : R)
      → j.marshal_task t ≡ ok d
      → j.unmarshal_task d ≡ ok t
      → Answers (λ _ s'. Answers (λ u _. u ≡ some t) (get_task r j t.id s')) (save_task r j t s)
  save_task_lem t d s e e' = Answers-weaken (save_task-written t d s e) λ _ s' p.
      Answers-weaken
        (get_task-stored t.id d t s'
          (ap (λ f. f (task_key t.id)) p.0 ∙ written-same (task_key t.id) (some d) (server.texts s))
          e')
        λ _ _ q. q.0

  pub save_to_queue-written :
      (t : Task) (d : String) (s : R)
      → j.marshal_task t ≡ ok d
      → server.texts s queue_key ≡ none
      → Answers
          (λ _ s'.
            (server.texts s' ≡ server.texts s)
            × (server.lists s' ≡ written queue_key (d ∷ server.lists s queue_key) (server.lists s)))
          (save_to_queue r j t s)
  unfolding save_to_queue
  save_to_queue-written t d s e free = rw (e) (server.lpush_law queue_key d s free)

  -- If JSON decodes what it encodes for this task, and the server answers, SaveTask and then GetTask
  -- with the task's id succeed and give the task.
  pub get_task-save_task :
      (t : Task) (d : String) (s : R)
      → j.marshal_task t ≡ ok d
      → j.unmarshal_task d ≡ ok t
      → Answers (λ u _. u ≡ some t) ((save_task r j t >> get_task r j t.id) s)
  get_task-save_task t d s e e' = Answers-follow (save_task_lem t d s e e') λ _ _ p. p
