-- ===== src/Storage/Redis.antt =====
-- internal/storage/storage.go, RedisStorage, over the interface RedisClient of redis_client.go. The
-- client (go-redis and the server) and the encoding of tasks and nodes as JSON texts are parameters.
pub mod Server
pub mod Tasks
pub mod Pending
pub mod Refine
pub mod Model
pub mod View
pub mod Client
pub mod Commands
mod Tests
use Prim.Native.String.{◌++◌}
use distributed_grpc_task_ma.Prelude.{
  ℕ, ◌*◌, String, List, [], ◌∷◌, Option, none, some, ℤ, pos, negsuc, eqb_ℤ, select, str_eq,
  if◌then◌else◌,
}
use distributed_grpc_task_ma.Prelude.Effects.{
  Error, Result, ok, err, M, pure, ◌>>=◌, ◌>>◌, wrapped, lift,
}
use distributed_grpc_task_ma.Storage.{Storage}
use distributed_grpc_task_ma.Types.{Task, Status, Duration, NodeInfo}

pub record RedisClient (R : Type 0) : Type 0 where
  pub set : String → String → Duration → M R (Unit {0})
  pub get : String → M R String
  pub del : String → M R (Unit {0})
  pub exists : String → M R ℕ
  pub keys : String → M R (List String)
  pub lpush : String → String → M R (Unit {0})
  pub rpop : String → M R String
  pub lrange : String → ℤ → ℤ → M R (List String)
  pub lrem : String → ℤ → String → M R (Unit {0})
  pub ping : M R (Unit {0})
  pub close : M R (Unit {0})

-- json.Marshal and json.Unmarshal at the two types that are stored
pub record Json : Type 0 where
  pub marshal_task : Task → Result String
  pub unmarshal_task : String → Result Task
  pub marshal_node : NodeInfo → Result String
  pub unmarshal_node : String → Result NodeInfo

abbrev pub task_key : String → String
task_key id = "task:" ++ id

abbrev pub queue_key : String
queue_key = "queue:pending"

abbrev pub node_key : String → String
node_key id = "node:" ++ id

-- 30 * time.Second
abbrev pub node_expiration : Duration
node_expiration = pos 30000000000

-- a loop that decodes the texts it can, in order
unfoldable pub decode_all : {A : Type 0} → (String → Result A) → List String → List A
decode_all decode [] = []
decode_all decode (d ∷ ds) =
    let rest = decode_all decode ds in elim (decode d) [ ok a ↦ a ∷ rest | err e ↦ rest ]

module _ {R : Type 0} (r : RedisClient R) (j : Json) where
  unfoldable pub save_task : Task → M R (Unit {0})
  save_task t = do
    d ← wrapped "failed to marshal task" (lift (j.marshal_task t))
    r.set (task_key t.id) d (pos 0)

  unfoldable pub get_task : String → M R (Option Task)
  get_task id = do
    d ← wrapped "failed to get task" (r.get (task_key id))
    t ← wrapped "failed to unmarshal task" (lift (j.unmarshal_task d))
    pure (some t)

  unfoldable pub update_task : Task → M R (Unit {0})
  unfolding save_task
  update_task t = save_task t

  unfoldable pub delete_task : String → M R (Unit {0})
  delete_task id = r.del (task_key id)

  -- a loop that gets the values of the keys; one that fails is skipped
  unfoldable pub get_values : List String → M R (List String)
  get_values [] s = (ok [], s)
  get_values (k ∷ ks) s =
      let (v, s') = r.get k s in
      let (vs, s'') = get_values ks s' in
      elim v [ err e ↦ (vs, s'') | ok d ↦ (elim vs [ err e ↦ err e | ok ds ↦ ok (d ∷ ds) ], s'') ]

  unfoldable pub get_all_tasks : M R (List Task)
  unfolding get_values decode_all
  get_all_tasks = do
    ks ← wrapped "failed to get task keys" (r.keys "task:*")
    ds ← get_values ks
    pure (decode_all j.unmarshal_task ds)

  unfoldable pub get_tasks_by_status : Status → M R (List Task)
  unfolding get_all_tasks
  get_tasks_by_status status = do ts ← get_all_tasks; pure (select (λ t. eqb_ℤ t.status status) ts)

  unfoldable pub save_to_queue : Task → M R (Unit {0})
  save_to_queue t = do
    d ← wrapped "failed to marshal task for queue" (lift (j.marshal_task t))
    r.lpush queue_key d

  -- the first text that decodes to a task with the id
  unfoldable pub find_text : String → List String → Option String
  find_text id [] = none
  find_text id (d ∷ ds) =
      let rest = find_text id ds in
      elim (j.unmarshal_task d) [ err e ↦ rest | ok t ↦ if str_eq t.id id then some d else rest ]

  unfoldable pub remove_from_queue : String → M R (Unit {0})
  unfolding find_text
  remove_from_queue id = do
    ds ← wrapped "failed to get queue tasks" (r.lrange queue_key (pos 0) (negsuc 0))
    elim (find_text id ds) [ none ↦ pure tt | some d ↦ r.lrem queue_key (pos 1) d ]

  unfoldable pub get_queue_tasks : M R (List Task)
  unfolding decode_all
  get_queue_tasks = do
    ds ← wrapped "failed to get queue tasks" (r.lrange queue_key (pos 0) (negsuc 0))
    pure (decode_all j.unmarshal_task ds)

  unfoldable pub save_node_info : NodeInfo → M R (Unit {0})
  save_node_info n = do
    d ← wrapped "failed to marshal node" (lift (j.marshal_node n))
    r.set (node_key n.id) d node_expiration

  unfoldable pub get_node_info : String → M R (Option NodeInfo)
  get_node_info id = do
    d ← wrapped "failed to get node" (r.get (node_key id))
    n ← wrapped "failed to unmarshal node" (lift (j.unmarshal_node d))
    pure (some n)

  unfoldable pub get_all_nodes : M R (List NodeInfo)
  unfolding get_values decode_all
  get_all_nodes = do
    ks ← wrapped "failed to get node keys" (r.keys "node:*")
    ds ← get_values ks
    pure (decode_all j.unmarshal_node ds)

  unfoldable pub delete_node : String → M R (Unit {0})
  delete_node id = r.del (node_key id)

  unfoldable pub ping : M R (Unit {0})
  ping = r.ping

  unfoldable pub close : M R (Unit {0})
  close = r.close

  -- RedisStorage as a Storage
  unfoldable pub redis_storage : Storage R
  unfolding save_task get_task update_task delete_task get_all_tasks get_tasks_by_status
      save_to_queue remove_from_queue get_queue_tasks save_node_info get_node_info get_all_nodes
      delete_node ping close
  redis_storage = record {
    save_task = save_task;
    get_task = get_task;
    update_task = update_task;
    delete_task = delete_task;
    get_all_tasks = get_all_tasks;
    get_tasks_by_status = get_tasks_by_status;
    save_to_queue = save_to_queue;
    remove_from_queue = remove_from_queue;
    get_queue_tasks = get_queue_tasks;
    save_node_info = save_node_info;
    get_node_info = get_node_info;
    get_all_nodes = get_all_nodes;
    delete_node = delete_node;
    ping = ping;
    close = close;
  }
