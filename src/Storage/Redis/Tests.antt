-- ===== src/Storage/Redis/Tests.antt =====
-- A client of go-redis over a server in memory, and the theorem about RedisStorage at it.
use distributed_grpc_task_ma.Prelude.{◌≡◌, refl, String, List, [], ◌∷◌, none, some}
use distributed_grpc_task_ma.Prelude.Effects.{ok, new}
use distributed_grpc_task_ma.Storage.Redis.Client.{Command, Options, GoRedis, new_redis_client}
use distributed_grpc_task_ma.Storage.Redis.Server.{written, drop_first}
use distributed_grpc_task_ma.Storage.Redis.Model.{
  Op, saves, updates, queues, reads, deletes, unqueues, lists, run_model, run,
}
use distributed_grpc_task_ma.Storage.Redis.View.{view}
use distributed_grpc_task_ma.Storage.Redis.Commands.{
  replies, IsGoRedis, new_redis_client-IsServer, run-new_redis_client,
}
use distributed_grpc_task_ma.Storage.Tests.{Memory, json as simple, empty, named}

abbrev replied : {A : Type 0} → A → Memory → Command A × Memory
replied a m = (record { val = a; err = none }, m)

abbrev refused : {A : Type 0} → A → String → Memory → Command A × Memory
refused a text m = (record { val = a; err = some (new text) }, m)

abbrev in_memory : Options → GoRedis Memory
in_memory o = record {
  set = λ k d e m.
      replied "OK" (record { texts = written k (some d) m.texts; lists = written k [] m.lists });
  get = λ k m. elim (m.texts k) [ none ↦ refused "" "redis: nil" m | some d ↦ replied d m ];
  del = λ ks m. elim ks [
    | [] ↦ replied 0 m
    | k ∷ rest ↦ replied 1 (record { texts = written k none m.texts; lists = written k [] m.lists })
  ];
  exists = λ ks m. replied 0 m;
  keys = λ pattern m. replied [] m;
  lpush = λ k ds m. elim ds [
    | [] ↦ replied 0 m
    | d ∷ rest ↦ replied 1 (record m { lists = written k (d ∷ m.lists k) m.lists })
  ];
  rpop = λ k m. refused "" "redis: nil" m;
  lrange = λ k i j m. replied (m.lists k) m;
  lrem = λ k n d m. replied 1 (record m { lists = written k (drop_first d (m.lists k)) m.lists });
  ping = λ m. replied "PONG" m;
  close = λ m. (ok tt, m);
}

abbrev in_memory-IsGoRedis : (o : Options) → IsGoRedis (in_memory o)
in_memory-IsGoRedis o = record {
  texts = λ m. m.texts;
  lists = λ m. m.lists;
  set_law = λ k d m. replies refl (refl, refl);
  get_law = λ k d m e. rw (e) (replies refl (refl, refl, refl));
  missing_law = λ k m e. (new "redis: nil", rw (e) refl, rw (e) refl, rw (e) refl);
  del_law = λ k m. replies refl (refl, refl);
  lpush_law = λ k d m e. replies refl (refl, refl);
  lrange_law = λ k m e. replies refl (refl, refl, refl);
  lrem_law = λ k d m e. replies refl (refl, refl);
}

abbrev ops : List Op
ops =
    saves (named "a")
    ∷ queues (named "a")
    ∷ queues (named "b")
    ∷ reads "a"
    ∷ unqueues "a"
    ∷ lists
    ∷ deletes "a"
    ∷ updates (named "b")
    ∷ reads "a"
    ∷ []

run-new_redis_client_example :
    run (new_redis_client in_memory ":6379" "" 0) simple ops empty
    ≡ run_model ops (
        view
          (new_redis_client in_memory ":6379" "" 0)
          simple
          (new_redis_client-IsServer in_memory ":6379" "" 0
            (in_memory-IsGoRedis (record { addr = ":6379"; password = ""; db = 0 })))
          empty)
run-new_redis_client_example =
    run-new_redis_client in_memory ":6379" "" 0 simple
      (in_memory-IsGoRedis (record { addr = ":6379"; password = ""; db = 0 })) ops empty
      (
        ("a", refl, refl),
        (
          ("a", refl, refl),
          (("b", refl, refl), (tt, (tt, (tt, (tt, (("b", refl, refl), (tt, tt))))))),
        ),
      )
      refl
