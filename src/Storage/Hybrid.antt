-- ===== src/Storage/Hybrid.antt =====
-- internal/storage/hybrid_storage.go: HybridStorage, a storage over two others. The one in Redis comes
-- first in every write and is the cache of the one in PostgreSQL.
pub mod Writes
pub mod Cache
pub mod Missing
use distributed_grpc_task_ma.Prelude.{String, List, Option, none, some}
use distributed_grpc_task_ma.Prelude.Effects.{Result, ok, err, M, pure, ◌>>=◌, ◌>>◌, wrapped}
use distributed_grpc_task_ma.Types.{Task, Status, NodeInfo}
use distributed_grpc_task_ma.Storage.{Storage}

module _ {R P : Type 0} where
  -- a call of one of the two
  abbrev pub in_redis : {A : Type 0} → M R A → M (R × P) A
  in_redis m (r, p) = let (a, r') = m r in (a, (r', p))

  abbrev pub in_postgres : {A : Type 0} → M P A → M (R × P) A
  in_postgres m (r, p) = let (a, p') = m p in (a, (r, p'))

  abbrev pub both : String → M R (Unit {0}) → String → M P (Unit {0}) → M (R × P) (Unit {0})
  both text m text' n = wrapped text (in_redis m) >> wrapped text' (in_postgres n)

  -- what is not in Redis is read from PostgreSQL, and then saved to Redis
  abbrev pub read_through :
      {A : Type 0}
      → M R (Option A)
      → M P (Option A)
      → (A → M R (Unit {0}))
      → String
      → M (R × P) (Option A)
  read_through {A = A} from_redis from_postgres cache text s =
      let (found, s') = in_redis from_redis s in
      let refill : M (R × P) (Option A) = do
        a ← in_postgres from_postgres
        elim a [ none ↦ pure none | some b ↦ wrapped text (in_redis (cache b)) >> pure (some b) ]
      in elim found [ ok (some a) ↦ (ok (some a), s') | ok none ↦ refill s' | err e ↦ refill s' ]

module _ {R P : Type 0} (redis : Storage R) (postgres : Storage P) where
  unfoldable pub save_task : Task → M (R × P) (Unit {0})
  save_task t =
      both "failed to save task to Redis" (redis.save_task t) "failed to save task to PostgreSQL"
        (postgres.save_task t)

  unfoldable pub get_task : String → M (R × P) (Option Task)
  get_task id =
      read_through (redis.get_task id) (postgres.get_task id) redis.save_task
        "failed to cache task in Redis"

  unfoldable pub update_task : Task → M (R × P) (Unit {0})
  update_task t =
      both "failed to update task in Redis" (redis.update_task t)
        "failed to update task in PostgreSQL" (postgres.update_task t)

  unfoldable pub delete_task : String → M (R × P) (Unit {0})
  delete_task id =
      both "failed to delete task from Redis" (redis.delete_task id)
        "failed to delete task from PostgreSQL" (postgres.delete_task id)

  unfoldable pub get_all_tasks : M (R × P) (List Task)
  get_all_tasks = in_postgres postgres.get_all_tasks

  unfoldable pub get_tasks_by_status : Status → M (R × P) (List Task)
  get_tasks_by_status status = in_postgres (postgres.get_tasks_by_status status)

  unfoldable pub save_to_queue : Task → M (R × P) (Unit {0})
  save_to_queue t =
      both "failed to save task to Redis queue" (redis.save_to_queue t)
        "failed to save task to PostgreSQL queue" (postgres.save_to_queue t)

  unfoldable pub remove_from_queue : String → M (R × P) (Unit {0})
  remove_from_queue id =
      both "failed to remove task from Redis queue" (redis.remove_from_queue id)
        "failed to remove task from PostgreSQL queue" (postgres.remove_from_queue id)

  unfoldable pub get_queue_tasks : M (R × P) (List Task)
  get_queue_tasks = in_redis redis.get_queue_tasks

  unfoldable pub save_node_info : NodeInfo → M (R × P) (Unit {0})
  save_node_info n =
      both "failed to save node info to Redis" (redis.save_node_info n)
        "failed to save node info to PostgreSQL" (postgres.save_node_info n)

  unfoldable pub get_node_info : String → M (R × P) (Option NodeInfo)
  get_node_info id =
      read_through (redis.get_node_info id) (postgres.get_node_info id) redis.save_node_info
        "failed to cache node info in Redis"

  unfoldable pub get_all_nodes : M (R × P) (List NodeInfo)
  get_all_nodes = in_postgres postgres.get_all_nodes

  unfoldable pub delete_node : String → M (R × P) (Unit {0})
  delete_node id =
      both "failed to delete node from Redis" (redis.delete_node id)
        "failed to delete node from PostgreSQL" (postgres.delete_node id)

  unfoldable pub ping : M (R × P) (Unit {0})
  ping = both "Redis ping failed" redis.ping "PostgreSQL ping failed" postgres.ping

  unfoldable pub close : M (R × P) (Unit {0})
  close =
      both "failed to close Redis connection" redis.close "failed to close PostgreSQL connection"
        postgres.close

  -- HybridStorage as a Storage
  unfoldable pub hybrid_storage : Storage (R × P)
  unfolding save_task get_task update_task delete_task get_all_tasks get_tasks_by_status
      save_to_queue remove_from_queue get_queue_tasks save_node_info get_node_info get_all_nodes
      delete_node ping close
  hybrid_storage = record {
    save_task = save_task;
    get_task = get_task;
    update_task = update_task;
    delete_task = delete_task;
    get_all_tasks = get_all_tasks;
    get_tasks_by_status = get_tasks_by_status;
    save_to_queue = save_to_queue;
    remove_from_queue = remove_from_queue;
    get_queue_tasks = get_queue_tasks;
    save_node_info = save_node_info;
    get_node_info = get_node_info;
    get_all_nodes = get_all_nodes;
    delete_node = delete_node;
    ping = ping;
    close = close;
  }
