-- ===== src/Node/Lifecycle.antt =====
-- A node from NewScheduler on, under every order of Start, the calls of the scheduler, the ticks of its
-- loops, the turns of the workers, and Stop.
use distributed_grpc_task_ma.Prelude.{◌≡◌, ℕ, String, List, [], ◌∷◌, map, Option, none, some, ◌⊎◌}
use distributed_grpc_task_ma.Prelude.Outcome.{Outcome}
use distributed_grpc_task_ma.Storage.{Storage}
use distributed_grpc_task_ma.Worker
use distributed_grpc_task_ma.Worker.{WorkerPool, turn}
use distributed_grpc_task_ma.Scheduler.{Scheduler}
use distributed_grpc_task_ma.Scheduler.Loops
use distributed_grpc_task_ma.Scheduler.Lifecycle.{Step, IsSteady}
use distributed_grpc_task_ma.Scheduler.Crew.{Member, Crew, Turn, take_turn}
use distributed_grpc_task_ma.Election.Raft.{RaftLibrary}
use distributed_grpc_task_ma.Node.{
  Node, task_storage, new_task_processor, crew_at, with_crew, start_node, stop_node,
}

module _ {W S : Type 0} (lib : RaftLibrary W) (decimal : ℕ → String) (storage : Storage S) where
  pub data Moves (n : Node lib S) : Node lib S → Type 0 where
    starts : Moves n (start_node lib n).1
    calls : {s : Scheduler S} → Step storage n.scheduler s → Moves n (record n { scheduler = s })
    turns :
        (p : WorkerPool) (t : Turn)
        → n.scheduler.worker_pool ≡ some p
        → Moves n (
            with_crew lib p n
              (take_turn decimal new_task_processor (task_storage storage) t (crew_at lib p n)))
    stops :
        (during : List Turn) {m : Node lib S}
        → stop_node lib decimal storage during n ≡ some m
        → Moves n m

  pub data Reaches (n : Node lib S) : Node lib S → Type 0 where
    here : Reaches n n
    next : {u v : Node lib S} → Reaches n u → Moves u v → Reaches n v

abbrev pub ids_of : List Member → List ℕ
ids_of ms = map (λ m. m.worker.id) ms

-- no pool and no goroutines, or those of the five workers that Start makes
pub record IsManned {W S : Type 0} {lib : RaftLibrary W} (self : String) (n : Node lib S)
    : Type 0 where
  pub steady : IsSteady self n.scheduler
  pub crew :
      ((n.scheduler.worker_pool ≡ none) × (n.members ≡ []))
      ⊎ ((p : WorkerPool) × (n.scheduler.worker_pool ≡ some p)
          × (ids_of n.members ≡ 0 ∷ 1 ∷ 2 ∷ 3 ∷ 4 ∷ []))

abbrev members_or : {S : Type 0} → List Member → Option (Crew S) → List Member
members_or ms none = ms
members_or ms (some c) = c.members

abbrev node_or :
    {W S : Type 0} {lib : RaftLibrary W} → Node lib S → Option (Node lib S) → Node lib S
node_or a none = a
node_or a (some m) = m
