-- ===== src/Node.antt =====
-- internal/scheduler/scheduler.go: Start and Stop of a scheduler together with its leader election and the
-- goroutines of its pool. The contexts that Stop cancels are flags.
pub mod Ending
pub mod Lifecycle
mod Tests
use distributed_grpc_task_ma.Prelude.{
  ℕ, String, Bool, true, false, List, [], map, Option, none, some,
}
use distributed_grpc_task_ma.Prelude.Effects.{Result, ok, err}
use distributed_grpc_task_ma.Queue.{PriorityQueue}
use distributed_grpc_task_ma.Storage.{Storage}
use distributed_grpc_task_ma.Worker.{TaskProcessor, TaskStorage, WorkerPool}
use distributed_grpc_task_ma.Scheduler.{Scheduler}
use distributed_grpc_task_ma.Scheduler.Loops
use distributed_grpc_task_ma.Scheduler.Crew.{Member, Crew, Turn, crew_of, stop_pool}
use distributed_grpc_task_ma.Election.Raft
use distributed_grpc_task_ma.Election.Raft.{RaftLibrary, LeaderElection, new_leader_election}

-- the storage as the workers use it
abbrev pub task_storage : {S : Type 0} → Storage S → TaskStorage S
task_storage storage = record { update_task = storage.update_task; get_task = storage.get_task }

-- TaskProcessor of the scheduler: ProcessTask sleeps and succeeds
abbrev pub new_task_processor : {S : Type 0} → TaskProcessor S
new_task_processor = record { process_task = λ s. (ok tt, s) }

-- `disk` is what the raft library keeps; `members` are the goroutines of the pool
pub record Node {W : Type 0} (lib : RaftLibrary W) (S : Type 0) : Type 0 where
  pub scheduler : Scheduler S
  pub election : Option (LeaderElection lib)
  pub disk : W
  pub members : List Member
  pub is_cancelled : Bool
  pub pool_cancelled : Bool
  pub coordinator_cancelled : Bool

abbrev pub new_node : {W S : Type 0} {lib : RaftLibrary W} → Scheduler S → W → Node lib S
new_node s w = record {
  scheduler = s;
  election = none;
  disk = w;
  members = [];
  is_cancelled = false;
  pool_cancelled = false;
  coordinator_cancelled = false;
}

module _ {W S : Type 0} (lib : RaftLibrary W) where
  -- the pool's goroutines, at the queue and the storage of the scheduler
  abbrev pub crew_at : WorkerPool → Node lib S → Crew S
  crew_at p n = record {
    members = n.members;
    metrics = p.metrics;
    world = n.scheduler.world;
    queue = n.scheduler.queue;
    cancelled = n.pool_cancelled;
  }

  abbrev pub with_crew : WorkerPool → Node lib S → Crew S → Node lib S
  with_crew p n c = record n {
    scheduler = record n.scheduler {
      worker_pool = some (record p { metrics = c.metrics });
      world = c.world;
      queue = c.queue;
    };
    members = c.members;
    pool_cancelled = c.cancelled;
  }

  -- the goroutines of the pool that Start has made
  abbrev pub started_members : Scheduler S → List Member
  started_members s = elim s.worker_pool [
    | none ↦ []
    | some p ↦ (crew_of p s.world s.queue).members
  ]

  -- from the result of Start of the election on
  unfoldable pub launched :
      Result (Unit {0}) × (LeaderElection lib × W) → Node lib S → Result (Unit {0}) × Node lib S
  unfolding Loops.start
  launched (r, (le, w)) n =
      let (u, s) = Loops.start r n.scheduler in
      (
        u,
        record n {
          scheduler = s;
          election = some le;
          disk = w;
          members = elim u [ ok _ ↦ started_members s | err _ ↦ n.members ];
        },
      )

  unfoldable pub start_node : Node lib S → Result (Unit {0}) × Node lib S
  unfolding launched Raft.start new_leader_election
  start_node n =
      let s = n.scheduler in
      launched (Raft.start lib (new_leader_election lib s.node_id s.address s.peers) n.disk) n

  unfoldable pub stop_election : Node lib S → Node lib S
  unfolding Raft.stop
  stop_election n = elim n.election [
    | none ↦ n
    | some le ↦ let (le', w) = Raft.stop lib le n.disk in record n { election = some le'; disk = w }
  ]

  abbrev pub stop_coordinator : Node lib S → Node lib S
  stop_coordinator n = record n { coordinator_cancelled = true }

  module _ (decimal : ℕ → String) (storage : Storage S) where
    -- Stop, while the workers take the turns; `none` if it still waits for them
    unfoldable pub stop_node : List Turn → Node lib S → Option (Node lib S)
    unfolding stop_election stop_pool
    stop_node turns n =
        let n' = record n { is_cancelled = true } in
        elim n.scheduler.worker_pool [
          | none ↦ some (stop_coordinator (stop_election n'))
          | some p ↦
              elim (stop_pool decimal new_task_processor (task_storage storage) turns
                (crew_at p n')) [
                  | none ↦ none
                  | some c ↦ some (stop_coordinator (stop_election (with_crew p n' c)))
                ]
        ]
