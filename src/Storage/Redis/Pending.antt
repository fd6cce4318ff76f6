-- ===== src/Storage/Redis/Pending.antt =====
-- The list of pending tasks in RedisStorage, with a server that answers.
use distributed_grpc_task_ma.Prelude.{
  ◌≡◌, refl, String, List, [], ◌∷◌, Option, none, some, str_eq, eq_iff, arith, ap, ◌∙◌,
  if◌then◌else◌, Option-cases, inl, inr, Bool, true, false,
}
use distributed_grpc_task_ma.Prelude.Effects.{
  Answers, answers, Answers-follow, Answers-weaken, Answers-wrapped, ok, err,
}
use distributed_grpc_task_ma.Types.{Task}
use distributed_grpc_task_ma.Storage.Redis.{
  RedisClient, Json, queue_key, decode_all, find_text, remove_from_queue, get_queue_tasks,
}
use distributed_grpc_task_ma.Storage.Redis.Server.{IsServer, written, drop_first}

-- the tasks without the first one that has the id
unfoldable pub drop_named : String → List Task → List Task
drop_named id [] = []
drop_named id (t ∷ ts) = let rest = drop_named id ts in if str_eq t.id id then ts else t ∷ rest

abbrev pub after_removal : String → List String → Option String → List String
after_removal id ds none = ds
after_removal id ds (some d) = drop_first d ds

module _ {R : Type 0} (r : RedisClient R) (j : Json) where
  encodes : String → String → Bool
  encodes id d = elim (j.unmarshal_task d) [ ok t ↦ str_eq t.id id | err e ↦ false ]

  find_text-encodes :
      (id d : String) (ds : List String) → find_text r j id ds ≡ some d → encodes id d ≡ true
  unfolding find_text encodes
  find_text-encodes id d [] e = ground arith
  find_text-encodes id d (c ∷ ds) e = ground (arith, find_text-encodes id d ds)

  pub decode_all-removal :
      (id : String) (ds : List String)
      → decode_all j.unmarshal_task (after_removal id ds (find_text r j id ds))
        ≡ drop_named id (decode_all j.unmarshal_task ds)
  unfolding decode_all find_text drop_named drop_first encodes
  decode_all-removal id [] = refl
  decode_all-removal id (d ∷ ds) = elim (Option-cases (find_text r j id ds)) [
    | inl e ↦ ground (arith, eq_iff d d, decode_all-removal id ds)
    | inr (c, e) ↦
        ground
          (arith, eq_iff d d, eq_iff d c, find_text-encodes id c ds e, decode_all-removal id ds)
  ]

  module _ (server : IsServer r) where
    pub at_queue :
        {f : String → List String} (g : String → List String) {ds : List String}
        → f ≡ written queue_key ds g
        → f queue_key ≡ ds
    at_queue g p = ap (λ f. f queue_key) p ∙ ground (arith, eq_iff queue_key queue_key)

    abbrev pub stored : R → List Task
    stored s = decode_all j.unmarshal_task (server.lists s queue_key)

    pub get_queue_tasks_lem :
        (s : R) (ds : List String) (ts : List Task)
        → server.lists s queue_key ≡ ds
        → decode_all j.unmarshal_task ds ≡ ts
        → server.texts s queue_key ≡ none
        → Answers
            (λ u s'.
              (u ≡ ts) × (server.texts s' ≡ server.texts s) × (server.lists s' ≡ server.lists s))
            (get_queue_tasks r j s)
    unfolding get_queue_tasks
    get_queue_tasks_lem s ds ts e e' free =
        Answers-follow
          (Answers-wrapped "failed to get queue tasks" (server.lrange_law queue_key s free))
          λ _ _ q. answers (ap (decode_all j.unmarshal_task) (q.0 ∙ e) ∙ e', q.1, q.2)

    pub remove_from_queue_lem :
        (id : String) (s : R)
        → server.texts s queue_key ≡ none
        → Answers
            (λ _ s'.
              (server.lists s' queue_key
                ≡ after_removal id
                    (server.lists s queue_key)
                    (find_text r j id (server.lists s queue_key)))
              × (server.texts s' ≡ server.texts s))
            (remove_from_queue r j id s)
    unfolding remove_from_queue
    remove_from_queue_lem id s free =
        Answers-follow
          (Answers-wrapped "failed to get queue tasks" (server.lrange_law queue_key s free))
          λ ds s' q. rw (q.0) (elim (Option-cases (find_text r j id (server.lists s queue_key))) [
            | inl e ↦ rw (e) (answers (ap (λ f. f queue_key) q.2, q.1))
            | inr (d, e) ↦ rw (e) (
                Answers-weaken (server.lrem_law queue_key d s' (ap (λ f. f queue_key) q.1 ∙ free))
                  λ _ s'' (o, p).
                    (at_queue _ p ∙ ap (λ f. drop_first d (f queue_key)) q.2, o ∙ q.1))
          ])
