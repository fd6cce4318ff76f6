-- ===== src/Election/Raft.antt =====
-- internal/cluster/leader_election.go: how the raft node is made, asked and stopped. The raft library, its
-- stores, the file system and the resolution of addresses are a parameter, with their state `W`.
use distributed_grpc_task_ma.Prelude.{
  ℕ, ◌+◌, String, Bool, true, false, List, [], ◌∷◌, Option, none, some,
}
use distributed_grpc_task_ma.Prelude.Effects.{Result, ok, err, wrap, M, pure, wrapped, ◌>>=◌}
use distributed_grpc_task_ma.Election.Fsm.{ClusterFsm, new_cluster_fsm}

-- raft.RaftState
pub data RaftState : Type 0 where
  follower candidate leader shut : RaftState

-- `== raft.Leader`
abbrev pub is_leading : RaftState → Bool
is_leading leader = true
is_leading follower = false
is_leading candidate = false
is_leading shut = false

-- raft.Server
pub record Server : Type 0 where
  pub id : String
  pub address : String

pub record RaftLibrary (W : Type 0) : Type 1 where
  pub TcpAddress : Type 0
  pub Transport : Type 0
  pub BoltStore : Type 0
  pub SnapshotStore : Type 0
  pub Raft : Type 0
  pub join_path : List String → String
  pub make_directories : String → M W (Unit {0})
  pub resolve_tcp_address : String → String → M W TcpAddress
  -- the connections of the pool and the timeout
  pub new_tcp_transport : String → TcpAddress → ℕ → ℕ → M W Transport
  pub local_address : Transport → String
  pub new_bolt_store : String → M W BoltStore
  -- the snapshots that are kept
  pub new_file_snapshot_store : String → ℕ → M W SnapshotStore
  -- for the default configuration with this LocalID; NewRaft gives nil with an error
  pub new_raft : String → ClusterFsm → BoltStore → BoltStore → SnapshotStore → Transport → M W Raft
  pub bootstrap_cluster : Raft → List Server → M W (Unit {0})
  -- with previous index and timeout 0
  pub add_voter : Raft → String → String → M W (Unit {0})
  pub shutdown : Raft → W → W
  pub state : Raft → W → RaftState
  pub state_text : RaftState → String
  pub leader_address : Raft → W → String
  pub get_configuration : Raft → M W (List Server)

module _ {W : Type 0} (lib : RaftLibrary W) where
  pub record LeaderElection : Type 0 where
    pub raft : Option lib.Raft
    pub node_id : String
    pub address : String
    pub peers : List String
    pub is_cancelled : Bool
    -- the goroutines that were started for monitorLeaderChanges
    pub monitors : ℕ

  pub record Stores : Type 0 where
    pub transport : lib.Transport
    pub log_store : lib.BoltStore
    pub stable_store : lib.BoltStore
    pub snapshot_store : lib.SnapshotStore

  unfoldable pub new_leader_election : String → String → List String → LeaderElection
  new_leader_election node_id address peers = record {
    raft = none;
    node_id = node_id;
    address = address;
    peers = peers;
    is_cancelled = false;
    monitors = 0;
  }

  -- Start up to the call of NewRaft
  unfoldable pub open_stores : LeaderElection → M W Stores
  open_stores le =
      let directory = lib.join_path ("data" ∷ "raft" ∷ le.node_id ∷ []) in
      do
        _ ← wrapped "failed to create data directory" (lib.make_directories directory)
        a ← wrapped "failed to resolve address" (lib.resolve_tcp_address "tcp" le.address)
        t ← wrapped "failed to create transport" (lib.new_tcp_transport le.address a 3 10000000000)
        l ←
            wrapped "failed to create log store"
              (lib.new_bolt_store (lib.join_path (directory ∷ "raft.db" ∷ [])))
        s ←
            wrapped "failed to create stable store"
              (lib.new_bolt_store (lib.join_path (directory ∷ "stable.db" ∷ [])))
        f ← wrapped "failed to create snapshot store" (lib.new_file_snapshot_store directory 3)
        pure (record { transport = t; log_store = l; stable_store = s; snapshot_store = f })

  -- the loop over the peers, whose errors are only logged
  unfoldable pub add_peers : lib.Raft → List String → W → W
  add_peers node [] w = w
  add_peers node (p ∷ ps) w = add_peers node ps (lib.add_voter node p p w).1

  unfoldable pub form_cluster : LeaderElection → lib.Raft → lib.Transport → W → W
  form_cluster le node t w = elim le.peers [
    | [] ↦
        (lib.bootstrap_cluster node (record { id = le.node_id; address = lib.local_address t } ∷ [])
          w).1
    | p ∷ ps ↦ add_peers node (p ∷ ps) w
  ]

  -- Start from the result of NewRaft on, which `raft` is set to even if it is an error
  unfoldable pub launch :
      LeaderElection
      → lib.Transport
      → Result lib.Raft × W
      → Result (Unit {0}) × (LeaderElection × W)
  launch le t (err e, w) = (err (wrap "failed to create raft" e), (record le { raft = none }, w))
  launch le t (ok node, w) = (
    ok tt,
    (record le { raft = some node; monitors = le.monitors + 1 }, form_cluster le node t w),
  )

  unfoldable pub start_raft :
      LeaderElection → Result Stores × W → Result (Unit {0}) × (LeaderElection × W)
  start_raft le (err e, w) = (err e, (le, w))
  start_raft le (ok s, w) = launch le s.transport (
      lib.new_raft le.node_id new_cluster_fsm s.log_store s.stable_store s.snapshot_store
        s.transport w)

  unfoldable pub start : LeaderElection → W → Result (Unit {0}) × (LeaderElection × W)
  unfolding open_stores
  start le w = start_raft le (open_stores le w)

  unfoldable pub stop : LeaderElection → W → LeaderElection × W
  stop le w = (
    record le { is_cancelled = true },
    elim le.raft [ none ↦ w | some node ↦ lib.shutdown node w ],
  )

  unfoldable pub is_leader : LeaderElection → W → Bool
  is_leader le w = elim le.raft [ none ↦ false | some node ↦ is_leading (lib.state node w) ]

  unfoldable get_leader : LeaderElection → W → String
  get_leader le w = elim le.raft [ none ↦ "" | some node ↦ lib.leader_address node w ]

  unfoldable get_state : LeaderElection → W → String
  get_state le w = elim le.raft [ none ↦ "unknown" | some node ↦ lib.state_text (lib.state node w) ]

  abbrev pub ids_of : List Server → List String
  ids_of [] = []
  ids_of (s ∷ ss) = s.id ∷ ids_of ss

  -- nil and the empty slice are the same list here
  abbrev pub ids_or_none : Result (List Server) → List String
  ids_or_none (ok ss) = ids_of ss
  ids_or_none (err e) = []

  unfoldable pub get_peers : LeaderElection → W → List String × W
  get_peers le w = elim le.raft [
    | none ↦ ([], w)
    | some node ↦ let (c, w') = lib.get_configuration node w in (ids_or_none c, w')
  ]
