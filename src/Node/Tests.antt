-- ===== src/Node/Tests.antt =====
-- The theorems about the workers of a node and about Stop, at a node with two workers.
use distributed_grpc_task_ma.Prelude.{
  inr, ◌≡◌, refl, ℕ, zero, suc, String, [], ◌∷◌, none, some, arith,
}
use distributed_grpc_task_ma.Queue.Tests.{pair}
use distributed_grpc_task_ma.Storage.Tests.{Memory, store, empty}
use distributed_grpc_task_ma.Worker.{WorkerPool, new_worker_pool, start}
use distributed_grpc_task_ma.Scheduler.{new_scheduler}
use distributed_grpc_task_ma.Scheduler.Crew.{Crew, Turn, crew_of, take_turn, take_turns, stop_pool}
use distributed_grpc_task_ma.Scheduler.Shutdown.{stop_pool-stuck}
use distributed_grpc_task_ma.Scheduler.Stopping.{Finish, takes_turn}
use distributed_grpc_task_ma.Election.Tests.{library, joining, open_node}
use distributed_grpc_task_ma.Node.{Node, new_node, task_storage, new_task_processor, stop_node}
use distributed_grpc_task_ma.Node.Ending.{IsEnded, stop_node-returns}

abbrev decimal : ℕ → String
decimal n = "1"

abbrev pool : WorkerPool
unfolding new_worker_pool start
pool = start (new_worker_pool 2)

abbrev first : Turn
first = record { index = 0; started = 1; finished = 2 }

abbrev second : Turn
second = record { index = 1; started = 3; finished = 4 }

abbrev crew : Crew Memory
crew = crew_of pool empty pair

stop_pool-stuck_example :
    stop_pool decimal new_task_processor (task_storage store) (second ∷ []) (
      take_turns decimal new_task_processor
        (task_storage store)
        (first ∷ [])
        (take_turn decimal new_task_processor (task_storage store) first crew))
    ≡ none
unfolding pool
stop_pool-stuck_example =
    stop_pool-stuck decimal new_task_processor (task_storage store) first crew (first ∷ [])
      (second ∷ []) refl refl (inr (refl, omega arith))

abbrev node : Node library Memory
unfolding new_scheduler pool
node =
    record (new_node (record (new_scheduler "n" ":1" empty pair []) { worker_pool = some pool })
      open_node) { election = some joining; members = crew.members }

all-Finish : Finish node.members (first ∷ second ∷ [])
unfolding takes_turn pool node
all-Finish zero = (λ e. ground (arith), λ e. refl)
all-Finish (suc zero) = (λ e. ground (arith), λ e. refl)
all-Finish (suc (suc j)) = (λ e. ground (arith), λ e. ground (arith))

stop_node-returns_example :
    (m : Node library Memory) × (stop_node library decimal store (first ∷ second ∷ []) node
      ≡ some m)
    × IsEnded library node joining m
unfolding node
stop_node-returns_example =
    stop_node-returns library decimal store node pool joining (first ∷ second ∷ []) refl refl
      all-Finish

abbrev fresh : Node library Memory
unfolding new_scheduler
fresh = new_node (new_scheduler "n" ":1" empty pair []) open_node
