-- ===== src/Node/Ending.antt =====
-- Stop of a scheduler that was started.
use distributed_grpc_task_ma.Prelude.{
  ℕ, ◌≡◌, ◌≢◌, ◌↔◌, refl, String, true, List, none, some, Option-cases, inl, inr, arith,
}
use distributed_grpc_task_ma.Worker.{WorkerPool}
use distributed_grpc_task_ma.Storage.{Storage}
use distributed_grpc_task_ma.Scheduler.Crew.{Crew, Turn}
use distributed_grpc_task_ma.Scheduler.Stopping.{Finish, stop_pool-returns, stop_pool-Finish}
use distributed_grpc_task_ma.Election.Raft.{RaftLibrary, LeaderElection, stop}
use distributed_grpc_task_ma.Node.{
  Node, task_storage, new_task_processor, crew_at, with_crew, stop_election, stop_coordinator,
  stop_node,
}

module _ {W S : Type 0} (lib : RaftLibrary W) where
  stop_election-done :
      (n : Node lib S) (le : LeaderElection lib)
      → n.election ≡ some le
      → stop_election lib n ≡ record n {
        election = some (record le { is_cancelled = true });
        disk = elim le.raft [ none ↦ n.disk | some node ↦ lib.shutdown node n.disk ];
      }
  unfolding stop_election stop
  stop_election-done n le e = rw (e, stop_election) refl

  -- what is left of a node once Stop has returned
  pub record IsEnded (n : Node lib S) (le : LeaderElection lib) (m : Node lib S) : Type 0 where
    pub cancelled : m.is_cancelled ≡ true
    pub pool : m.pool_cancelled ≡ true
    pub coordinator : m.coordinator_cancelled ≡ true
    pub election : m.election ≡ some (record le { is_cancelled = true })
    pub disk : m.disk ≡ (elim le.raft [ none ↦ n.disk | some node ↦ lib.shutdown node n.disk ])
    pub queue : m.scheduler.queue ≡ n.scheduler.queue
    pub world : m.scheduler.world ≡ n.scheduler.world

  module _ (decimal : ℕ → String) (storage : Storage S) where
    -- If the scheduler was started, no worker waits for ever, and each that is running takes a turn once Stop
    -- has cancelled the pool, then Stop returns: the contexts of the scheduler, the pool, the election and
    -- the coordinator are cancelled, the node of raft was shut down, if there was one, and the queue
    -- and the storage are as they were.
    pub stop_node-returns :
        (n : Node lib S) (p : WorkerPool) (le : LeaderElection lib) (during : List Turn)
        → n.scheduler.worker_pool ≡ some p
        → n.election ≡ some le
        → Finish n.members during
        → (m : Node lib S) × (stop_node lib decimal storage during n ≡ some m) × IsEnded n le m
    unfolding stop_node
    stop_node-returns n p le during e k finish =
        let n' = record n { is_cancelled = true } in
        let (c, q, l) =
          stop_pool-returns decimal new_task_processor (task_storage storage) (crew_at lib p n')
            during finish in
        let m = with_crew lib p n' c in
        let o = stop_election-done m le k in
        (
          stop_coordinator lib (record m {
            election = some (record le { is_cancelled = true });
            disk = elim le.raft [ none ↦ n.disk | some node ↦ lib.shutdown node n.disk ];
          }),
          rw (e, stop_node, q, o) refl,
          record {
            cancelled = refl;
            pool = l.cancelled;
            coordinator = refl;
            election = refl;
            disk = refl;
            queue = l.queue;
            world = l.world;
          },
        )

    -- Stop returns exactly if the workers, where there are any, finish.
    pub stop_node-Finish :
        (n : Node lib S) (during : List Turn)
        → (stop_node lib decimal storage during n ≢ none)
          ↔ ((p : WorkerPool) → n.scheduler.worker_pool ≡ some p → Finish n.members during)
    unfolding stop_node
    stop_node-Finish n during = (
      λ k p e.
          stop_pool-Finish decimal new_task_processor (task_storage storage) (at p) during
            λ o. k (rw (e, stop_node, o) refl),
      λ finish. elim (Option-cases n.scheduler.worker_pool) [
        | inl e ↦ λ k. let k' = rw (e, stop_node) at k in ground (arith)
        | inr (p, e) ↦
            let (c, q, l) =
              stop_pool-returns decimal new_task_processor (task_storage storage) (at p) during
                (finish p e) in
            λ k. let k' = rw (e, stop_node, q) at k in ground (arith)
      ],
    )
      where
        at : WorkerPool → Crew S
        at p = crew_at lib p (record n { is_cancelled = true })
