-- ===== src/Storage/Hybrid/Writes.antt =====
-- The writes of HybridStorage, by what they do to the two storages.
use distributed_grpc_task_ma.Prelude.{◌≡◌, String, Bool, true, false, ◌&&◌, if◌then◌else◌, arith}
use distributed_grpc_task_ma.Prelude.Effects.{Result, ok, err, M}
use distributed_grpc_task_ma.Types.{Task, NodeInfo}
use distributed_grpc_task_ma.Storage.{Storage}
use distributed_grpc_task_ma.Storage.Hybrid.{
  hybrid_storage, save_task, update_task, delete_task, save_to_queue, remove_from_queue,
  save_node_info, delete_node,
}

pub data Write : Type 0 where
  saves updates queues : Task → Write
  deletes unqueues forgets : String → Write
  reports : NodeInfo → Write

abbrev pub perform : {S : Type 0} → Storage S → Write → M S (Unit {0})
perform storage (saves t) = storage.save_task t
perform storage (updates t) = storage.update_task t
perform storage (queues t) = storage.save_to_queue t
perform storage (deletes id) = storage.delete_task id
perform storage (unqueues id) = storage.remove_from_queue id
perform storage (forgets id) = storage.delete_node id
perform storage (reports n) = storage.save_node_info n

abbrev pub succeeds : {A : Type 0} → Result A → Bool
succeeds (ok a) = true
succeeds (err e) = false

module _ {R P : Type 0} (redis : Storage R) (postgres : Storage P) where
  -- Every write succeeds exactly if it succeeds in both storages; it is always tried in Redis, and in
  -- PostgreSQL only after Redis took it, so that what PostgreSQL refuses is left in Redis.
  pub perform-hybrid_storage :
      (w : Write) (r : R) (p : P)
      → (succeeds (perform (hybrid_storage redis postgres) w (r, p)).0
          ≡ (succeeds (perform redis w r).0 && succeeds (perform postgres w p).0))
        × ((perform (hybrid_storage redis postgres) w (r, p)).1 ≡ (
          (perform redis w r).1,
          (if succeeds (perform redis w r).0 then (perform postgres w p).1 else p),
        ))
  unfolding hybrid_storage save_task update_task delete_task save_to_queue remove_from_queue
      save_node_info delete_node
  perform-hybrid_storage (saves t) r p = ground arith
  perform-hybrid_storage (updates t) r p = ground arith
  perform-hybrid_storage (queues t) r p = ground arith
  perform-hybrid_storage (deletes id) r p = ground arith
  perform-hybrid_storage (unqueues id) r p = ground arith
  perform-hybrid_storage (forgets id) r p = ground arith
  perform-hybrid_storage (reports n) r p = ground arith
