-- ===== src/Storage/Hybrid/Cache.antt =====
-- Redis as the cache of PostgreSQL: what is read from PostgreSQL once is read from Redis after.
use distributed_grpc_task_ma.Prelude.{◌≡◌, refl, sym, ap, ◌∙◌, String, Option, some, none}
use distributed_grpc_task_ma.Prelude.Effects.{
  Answers, answers, Answers-follow, Answers-wrapped, Answers-result, Result, ok, err, Error, wrap,
  M, ◌>>=◌,
}
use distributed_grpc_task_ma.Types.{Task}
use distributed_grpc_task_ma.Storage.{Storage}
use distributed_grpc_task_ma.Storage.Redis.{
  RedisClient, Json, task_key, redis_storage, get_task as redis_get_task,
  save_task as redis_save_task,
}
use distributed_grpc_task_ma.Storage.Redis.Server.{IsServer}
use distributed_grpc_task_ma.Storage.Redis.Tasks.{save_task_lem}
use distributed_grpc_task_ma.Storage.Hybrid.{get_task, read_through}

Answers-in_redis :
    {R P A : Type 0} {Q : R → Type 0} {r : Result A × R} (p : P)
    → Answers (λ _ s. Q s) r
    → Answers {S = R × P} (λ _ w. (w.1 ≡ p) × Q w.0) (r.0, (r.1, p))
Answers-in_redis p (answers q) = answers (refl, q)

module _ {R P A : Type 0} (from_redis : M R (Option A)) (from_postgres : M P (Option A))
    (cache : A → M R (Unit {0})) (text : String) where
  read_through-miss :
      {Q : R → Type 0} (a : A) (e : Error) (r r' : R) (p p' : P)
      → from_redis r ≡ (err e, r')
      → from_postgres p ≡ (ok (some a), p')
      → Answers (λ _ s. Q s) (cache a r')
      → Answers
          (λ u w. (u ≡ some a) × (w.1 ≡ p') × Q w.0)
          (read_through from_redis from_postgres cache text (r, p))
  read_through-miss a e r r' p p' q q' c =
      rw (q, q', read_through, q)
        (Answers-follow (Answers-wrapped text (Answers-in_redis p' c))
          λ _ _ k. answers (refl, k.0, k.1))

  pub read_through-neither :
      (e x : Error) (r r' : R) (p p' : P)
      → from_redis r ≡ (err e, r')
      → from_postgres p ≡ (err x, p')
      → read_through from_redis from_postgres cache text (r, p) ≡ (err x, (r', p'))
  read_through-neither e x r r' p p' q q' = rw (q, q', read_through, q) refl

  read_through-hit :
      (a : A) (r : R) (p : P)
      → Answers (λ u _. u ≡ some a) (from_redis r)
      → Answers
          (λ u w. (u ≡ some a) × (w.1 ≡ p))
          (read_through from_redis from_postgres cache text (r, p))
  read_through-hit a r p c =
      let (_, s, q, e) = Answers-result c in
      rw (q ∙ ap (λ u. (ok u, s)) e, read_through) (answers (refl, refl))

module _ {R P : Type 0} (r : RedisClient R) (j : Json) (server : IsServer r)
    (postgres : Storage P) where
  -- If Redis answers and has no text for the task, PostgreSQL gives the task, and JSON decodes what it
  -- encodes for it, then GetTask twice gives the task, and the second time PostgreSQL is not asked.
  pub get_task-get_task :
      (t : Task) (d : String) (s : R) (p p' : P)
      → server.texts s (task_key t.id) ≡ none
      → postgres.get_task t.id p ≡ (ok (some t), p')
      → j.marshal_task t ≡ ok d
      → j.unmarshal_task d ≡ ok t
      → Answers
          (λ u w. (u ≡ some t) × (w.1 ≡ p'))
          ((get_task (redis_storage r j) postgres t.id >>= λ _.
              get_task (redis_storage r j) postgres t.id)
            (s, p))
  unfolding get_task redis_storage redis_get_task redis_save_task
  get_task-get_task t d s p p' missing found m u =
      let (e, s', q, _, _) = server.missing_law (task_key t.id) s missing in
      Answers-follow {f = λ _. get_task (redis_storage r j) postgres t.id}
        (read_through-miss (redis_get_task r j t.id) (postgres.get_task t.id) (redis_save_task r j)
          "failed to cache task in Redis" t (wrap "failed to get task" e) s s' p p' (rw (q) refl)
          found (save_task_lem r j server t d s' m u))
        λ _ w (_, k, hit). rw (sym k) (
          read_through-hit (redis_get_task r j t.id) (postgres.get_task t.id) (redis_save_task r j)
            "failed to cache task in Redis" t w.0 w.1 hit)
