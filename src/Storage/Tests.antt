-- ===== src/Storage/Tests.antt =====
-- A Redis server in memory and a simple encoding, and the theorems about the storages at them.
use distributed_grpc_task_ma.Prelude.{
  ◌≡◌, refl, String, false, ◌&&◌, if◌then◌else◌, List, [], ◌∷◌, Option, none, some, pos,
}
use distributed_grpc_task_ma.Prelude.Effects.{ok, err, new, Answers, answers, ◌>>=◌}
use distributed_grpc_task_ma.Types.{Task, NodeInfo}
use distributed_grpc_task_ma.Storage.{Storage}
use distributed_grpc_task_ma.Storage.Redis.{RedisClient, Json, redis_storage, get_task}
use distributed_grpc_task_ma.Storage.Redis.Server.{IsServer, written, drop_first}
use distributed_grpc_task_ma.Storage.Hybrid
use distributed_grpc_task_ma.Storage.Hybrid.{hybrid_storage}
use distributed_grpc_task_ma.Storage.Hybrid.Writes.{
  perform, saves, succeeds, perform-hybrid_storage,
}
use distributed_grpc_task_ma.Storage.Hybrid.Cache.{get_task-get_task}

pub record Memory : Type 0 where
  pub texts : String → Option String
  pub lists : String → List String

abbrev pub client : RedisClient Memory
client = record {
  set = λ k d e m.
      (ok tt, record { texts = written k (some d) m.texts; lists = written k [] m.lists });
  get = λ k m. (elim (m.texts k) [ none ↦ err (new "redis: nil") | some d ↦ ok d ], m);
  del = λ k m. (ok tt, record { texts = written k none m.texts; lists = written k [] m.lists });
  exists = λ k m. (ok (elim (m.texts k) [ none ↦ 0 | some d ↦ 1 ]), m);
  keys = λ pattern m. (ok [], m);
  lpush = λ k d m. (ok tt, record m { lists = written k (d ∷ m.lists k) m.lists });
  rpop = λ k m. (err (new "redis: nil"), m);
  lrange = λ k i j m. (ok (m.lists k), m);
  lrem = λ k n d m. (ok tt, record m { lists = written k (drop_first d (m.lists k)) m.lists });
  ping = λ m. (ok tt, m);
  close = λ m. (ok tt, m);
}

abbrev pub client-IsServer : IsServer client
client-IsServer = record {
  texts = λ m. m.texts;
  lists = λ m. m.lists;
  set_law = λ k d m. answers (refl, refl);
  get_law = λ k d m e. rw (e) (answers (refl, refl, refl));
  missing_law = λ k m e. (new "redis: nil", m, rw (e) refl, refl, refl);
  del_law = λ k m. answers (refl, refl);
  lpush_law = λ k d m e. answers (refl, refl);
  lrange_law = λ k m e. answers (refl, refl, refl);
  lrem_law = λ k d m e. answers (refl, refl);
}

abbrev pub named : String → Task
named id = record {
  id = id;
  priority = pos 0;
  payload = [];
  created_at = 0;
  status = pos 0;
  started_at = none;
  completed_at = none;
  worker_id = "";
  error = "";
  dependencies = [];
  timeout = none;
  max_duration = none;
}

abbrev pub node : String → NodeInfo
node id = record { id = id; address = ""; is_leader = false; last_seen = 0; status = "active" }

abbrev pub json : Json
json = record {
  marshal_task = λ t. ok t.id;
  unmarshal_task = λ d. ok (named d);
  marshal_node = λ n. ok n.id;
  unmarshal_node = λ d. ok (node d);
}

abbrev pub empty : Memory
empty = record { texts = λ k. none; lists = λ k. [] }

abbrev filled : Memory
filled = record {
  texts = written "task:a" (some "a") (λ k. none);
  lists = λ k. "b" ∷ "a" ∷ "b" ∷ [];
}

abbrev pub store : Storage Memory
store = redis_storage client json

perform-hybrid_storage_example :
    (succeeds (perform (hybrid_storage store store) (saves (named "a")) (empty, filled)).0 ≡ (
      succeeds (perform store (saves (named "a")) empty).0
      && succeeds (perform store (saves (named "a")) filled).0))
    × ((perform (hybrid_storage store store) (saves (named "a")) (empty, filled)).1 ≡ (
      (perform store (saves (named "a")) empty).1,
      (if succeeds (perform store (saves (named "a")) empty).0
          then (perform store (saves (named "a")) filled).1
          else filled),
    ))
perform-hybrid_storage_example = perform-hybrid_storage store store (saves (named "a")) empty filled

get_task-get_task_example :
    Answers
      (λ u w. (u ≡ some (named "a")) × (w.1 ≡ filled))
      ((Hybrid.get_task store store "a" >>= λ _. Hybrid.get_task store store "a") (empty, filled))
unfolding redis_storage get_task
get_task-get_task_example =
    get_task-get_task client json client-IsServer store (named "a") "a" empty filled filled refl
      refl refl refl
