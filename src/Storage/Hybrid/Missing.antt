-- ===== src/Storage/Hybrid/Missing.antt =====
-- A task that is in neither storage.
use distributed_grpc_task_ma.Prelude.{◌≡◌, refl, ap, ◌∙◌, String, none}
use distributed_grpc_task_ma.Prelude.Effects.{err, wrap}
use distributed_grpc_task_ma.Storage.{task_not_found}
use distributed_grpc_task_ma.Storage.Redis.{
  RedisClient, Json, task_key, redis_storage, get_task as redis_get_task,
  save_task as redis_save_task,
}
use distributed_grpc_task_ma.Storage.Redis.Server.{IsServer}
use distributed_grpc_task_ma.Storage.Postgres.{postgres_storage, get_task as postgres_get_task}
use distributed_grpc_task_ma.Storage.Postgres.Sql.{Database, Scanner}
use distributed_grpc_task_ma.Storage.Postgres.Contract.{IsDatabase, IsScanner}
use distributed_grpc_task_ma.Storage.Postgres.Tasks.{get_task_missing}
use distributed_grpc_task_ma.Storage.Hybrid.{get_task}
use distributed_grpc_task_ma.Storage.Hybrid.Cache.{read_through-neither}

module _ {R D : Type 0} (r : RedisClient R) (j : Json) (server : IsServer r) (db : Database D)
    (s : Scanner) (holds : IsDatabase db) (scans : IsScanner s) where
  -- If Redis and the database answer, Redis has no text for the id and the tasks no row, then GetTask
  -- fails with the error that the task was not found, and leaves the texts and the rows as they were.
  pub hybrid_get_task_missing :
      (id : String) (a : R) (d : D)
      → server.texts a (task_key id) ≡ none
      → holds.tasks d id ≡ none
      → let (u, w) = get_task (redis_storage r j) (postgres_storage db s) id (a, d) in
        (u ≡ err task_not_found)
        × (server.texts w.0 ≡ server.texts a)
        × (holds.tasks w.1 ≡ holds.tasks d)
  unfolding get_task redis_storage redis_get_task redis_save_task postgres_storage
  hybrid_get_task_missing id a d e e' =
      let (x, a', q, p, _) = server.missing_law (task_key id) a e in
      let (d', q', p') = get_task_missing db s holds scans id d e' in
      let both =
        read_through-neither (redis_get_task r j id) (postgres_get_task db s id)
          (redis_save_task r j) "failed to cache task in Redis" (wrap "failed to get task" x)
          task_not_found a a' d d' (rw (q) refl) q' in
      (
        ap (λ w. w.0) both,
        ap (λ w. server.texts w.1.0) both ∙ p,
        ap (λ w. holds.tasks w.1.1) both ∙ p',
      )
