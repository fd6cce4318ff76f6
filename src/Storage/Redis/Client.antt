-- ===== src/Storage/Redis/Client.antt =====
-- internal/storage/redis_client.go: RedisClientImpl, over the client of go-redis, which is a parameter.
use distributed_grpc_task_ma.Prelude.{ℕ, String, List, Option, none, some, ℤ, ◌∷◌, []}
use distributed_grpc_task_ma.Prelude.Effects.{Error, Result, ok, err, M}
use distributed_grpc_task_ma.Types.{Duration}
use distributed_grpc_task_ma.Storage.Redis.{RedisClient}

-- what a command comes to: `err` is what its Err gives, and with `val` what its Result gives
pub record Command (A : Type 0) : Type 0 where
  pub val : A
  pub err : Option Error

-- redis.Options
pub record Options : Type 0 where
  pub addr : String
  pub password : String
  pub db : ℕ

-- redis.Client
pub record GoRedis (R : Type 0) : Type 0 where
  pub set : String → String → Duration → R → Command String × R
  pub get : String → R → Command String × R
  pub del : List String → R → Command ℕ × R
  pub exists : List String → R → Command ℕ × R
  pub keys : String → R → Command (List String) × R
  pub lpush : String → List String → R → Command ℕ × R
  pub rpop : String → R → Command String × R
  pub lrange : String → ℤ → ℤ → R → Command (List String) × R
  pub lrem : String → ℤ → String → R → Command ℕ × R
  pub ping : R → Command String × R
  pub close : M R (Unit {0})

-- `Err()`
abbrev pub err_of : {R A : Type 0} → Command A × R → Result (Unit {0}) × R
err_of (c, s) = (elim c.err [ none ↦ ok tt | some e ↦ err e ], s)

-- `Result()`; the value that comes with an error is not looked at
abbrev pub result_of : {R A : Type 0} → Command A × R → Result A × R
result_of (c, s) = (elim c.err [ none ↦ ok c.val | some e ↦ err e ], s)

module _ {R : Type 0} where
  -- the calls of RedisStorage give one key to Del and Exists, and one value to LPush
  unfoldable pub redis_client_impl : GoRedis R → RedisClient R
  redis_client_impl g = record {
    set = λ k d expiration s. err_of (g.set k d expiration s);
    get = λ k s. result_of (g.get k s);
    del = λ k s. err_of (g.del (k ∷ []) s);
    exists = λ k s. result_of (g.exists (k ∷ []) s);
    keys = λ pattern s. result_of (g.keys pattern s);
    lpush = λ k d s. err_of (g.lpush k (d ∷ []) s);
    rpop = λ k s. result_of (g.rpop k s);
    lrange = λ k start stop s. result_of (g.lrange k start stop s);
    lrem = λ k count d s. err_of (g.lrem k count d s);
    ping = λ s. err_of (g.ping s);
    close = g.close;
  }

  -- `connect` is redis.NewClient
  unfoldable pub new_redis_client : (Options → GoRedis R) → String → String → ℕ → RedisClient R
  unfolding redis_client_impl
  new_redis_client connect addr password db =
      redis_client_impl (connect (record { addr = addr; password = password; db = db }))
