-- ===== src/Storage/Redis/Commands.antt =====
-- What go-redis makes of the commands that RedisStorage uses, at a Redis server that answers, and what
-- RedisClientImpl and RedisStorage make of that. The laws are those of Server, for the commands.
use distributed_grpc_task_ma.Prelude.{
  ℕ, ◌≡◌, refl, String, List, [], ◌∷◌, Option, none, some, pos, negsuc,
}
use distributed_grpc_task_ma.Prelude.Effects.{Answers, answers, Error, err}
use distributed_grpc_task_ma.Storage.Redis.{Json, queue_key}
use distributed_grpc_task_ma.Storage.Redis.Server.{IsServer, written, drop_first}
use distributed_grpc_task_ma.Storage.Redis.Model.{Op, run, run_model, AreEncodable}
use distributed_grpc_task_ma.Storage.Redis.View.{view}
use distributed_grpc_task_ma.Storage.Redis.Refine.{run-run_model}
use distributed_grpc_task_ma.Storage.Redis.Client.{
  Command, GoRedis, Options, err_of, result_of, redis_client_impl, new_redis_client,
}

-- the command has no error, and a value that satisfies `P` with the state it leaves
pub data Replies {R A : Type 0} (P : A → R → Type 0) : Command A × R → Type 0 where
  replies : {c : Command A} {s : R} → c.err ≡ none → P c.val s → Replies P (c, s)

result_of-Answers :
    {R A : Type 0} {P : A → R → Type 0} {r : Command A × R} → Replies P r → Answers P (result_of r)
result_of-Answers (replies e p) = rw (e) (answers p)

err_of-Answers :
    {R A : Type 0} {P : R → Type 0} {r : Command A × R}
    → Replies (λ _ s. P s) r
    → Answers (λ _ s. P s) (err_of r)
err_of-Answers (replies e p) = rw (e) (answers p)

pub record IsGoRedis {R : Type 0} (g : GoRedis R) : Type 0 where
  pub texts : R → String → Option String
  pub lists : R → String → List String
  pub set_law :
      (k d : String) (s : R)
      → Replies
          (λ _ s'. (texts s' ≡ written k (some d) (texts s)) × (lists s' ≡ written k [] (lists s)))
          (g.set k d (pos 0) s)
  pub get_law :
      (k d : String) (s : R)
      → texts s k ≡ some d
      → Replies (λ d' s'. (d' ≡ d) × (texts s' ≡ texts s) × (lists s' ≡ lists s)) (g.get k s)
  pub missing_law :
      (k : String) (s : R)
      → texts s k ≡ none
      → (e : Error) × ((g.get k s).0.err ≡ some e)
        × (texts (g.get k s).1 ≡ texts s)
        × (lists (g.get k s).1 ≡ lists s)
  pub del_law :
      (k : String) (s : R)
      → Replies
          (λ _ s'. (texts s' ≡ written k none (texts s)) × (lists s' ≡ written k [] (lists s)))
          (g.del (k ∷ []) s)
  pub lpush_law :
      (k d : String) (s : R)
      → texts s k ≡ none
      → Replies
          (λ _ s'. (texts s' ≡ texts s) × (lists s' ≡ written k (d ∷ lists s k) (lists s)))
          (g.lpush k (d ∷ []) s)
  pub lrange_law :
      (k : String) (s : R)
      → texts s k ≡ none
      → Replies
          (λ ds s'. (ds ≡ lists s k) × (texts s' ≡ texts s) × (lists s' ≡ lists s))
          (g.lrange k (pos 0) (negsuc 0) s)
  pub lrem_law :
      (k d : String) (s : R)
      → texts s k ≡ none
      → Replies
          (λ _ s'.
            (texts s' ≡ texts s) × (lists s' ≡ written k (drop_first d (lists s k)) (lists s)))
          (g.lrem k (pos 1) d s)

failed_get :
    {R : Type 0} (r : Command String × R) (e : Error)
    → r.0.err ≡ some e
    → result_of r ≡ (err e, r.1)
failed_get r e k = rw (k) refl

-- the options that NewRedisClient gives
abbrev pub options : String → String → ℕ → Options
options addr password db = record { addr = addr; password = password; db = db }

module _ {R : Type 0} where
  redis_client_impl-IsServer : (g : GoRedis R) → IsGoRedis g → IsServer (redis_client_impl g)
  unfolding redis_client_impl
  redis_client_impl-IsServer g go = record {
    texts = go.texts;
    lists = go.lists;
    set_law = λ k d s. err_of-Answers (go.set_law k d s);
    get_law = λ k d s e. result_of-Answers (go.get_law k d s e);
    missing_law = λ k s n.
        let (e, q, p, p') = go.missing_law k s n in
        (e, (g.get k s).1, failed_get (g.get k s) e q, p, p');
    del_law = λ k s. err_of-Answers (go.del_law k s);
    lpush_law = λ k d s e. err_of-Answers (go.lpush_law k d s e);
    lrange_law = λ k s e. result_of-Answers (go.lrange_law k s e);
    lrem_law = λ k d s e. err_of-Answers (go.lrem_law k d s e);
  }

  pub new_redis_client-IsServer :
      (connect : Options → GoRedis R) (addr password : String) (db : ℕ)
      → IsGoRedis (connect (options addr password db))
      → IsServer (new_redis_client connect addr password db)
  unfolding new_redis_client redis_client_impl-IsServer
  new_redis_client-IsServer connect addr password db =
      redis_client_impl-IsServer (connect (options addr password db))

  -- If the client of go-redis for the given address, password and database does what the manual of Redis
  -- says, the key of the queue holds no text, and JSON decodes what it encodes for the tasks that are
  -- written, then no sequence of SaveTask, UpdateTask, GetTask, DeleteTask, SaveToQueue,
  -- RemoveFromQueue and GetQueueTasks tells the storage over NewRedisClient from a map from ids to
  -- tasks and a list of tasks.
  pub run-new_redis_client :
      (connect : Options → GoRedis R) (addr password : String) (db : ℕ) (j : Json)
      (go : IsGoRedis (connect (options addr password db))) (ops : List Op) (s : R)
      → AreEncodable (new_redis_client connect addr password db) j ops
      → go.texts s queue_key ≡ none
      → run (new_redis_client connect addr password db) j ops s
        ≡ run_model ops (
            view
              (new_redis_client connect addr password db)
              j
              (new_redis_client-IsServer connect addr password db go)
              s)
  unfolding new_redis_client-IsServer redis_client_impl-IsServer
  run-new_redis_client connect addr password db j go ops s v free =
      run-run_model (new_redis_client connect addr password db) j
        (new_redis_client-IsServer connect addr password db go) ops s v free
