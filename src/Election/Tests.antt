-- ===== src/Election/Tests.antt =====
-- The theorems about the election, at a scheduler and a simple raft library.
use distributed_grpc_task_ma.Prelude.{◌≡◌, refl, ℕ, String, true, false, List, [], ◌∷◌, arith}
use distributed_grpc_task_ma.Prelude.Effects.{ok, err, new}
use distributed_grpc_task_ma.Queue.Tests.{pair}
use distributed_grpc_task_ma.Storage.Tests.{Memory, empty}
use distributed_grpc_task_ma.Scheduler.{Scheduler, new_scheduler}
use distributed_grpc_task_ma.Election.{monitor_leader_changes}
use distributed_grpc_task_ma.Election.Monitor.{
  notify, last_seen, alternates, notify-monitor_leader_changes,
}
use distributed_grpc_task_ma.Election.Raft
use distributed_grpc_task_ma.Election.Raft.{
  RaftLibrary, LeaderElection, new_leader_election, open_stores, launch, start_raft, start,
  is_leader, get_peers,
}
use distributed_grpc_task_ma.Election.Fsm.{
  Maps, ClusterFsm, Entry, Json, SnapshotSink, new_cluster_fsm, apply, apply_all, snapshot, restore,
  persist, ended,
}
use distributed_grpc_task_ma.Election.Replay.{
  put_all, lookup, apply-new_cluster_fsm, lookup-restore,
}
use distributed_grpc_task_ma.Prelude.Outcome.{◌>>=◌, done, panics, Yields}
use distributed_grpc_task_ma.Prelude.Maps.{find, put}
use distributed_grpc_task_ma.Prelude.{none, some, ◌==◌, str_eq, if◌then◌else◌}
use distributed_grpc_task_ma.Election.Setup.{Refuses, start-peers}

abbrev follower : Scheduler Memory
unfolding new_scheduler
follower = new_scheduler "n" ":1" empty pair []

notify-monitor_leader_changes_example :
    ((notify (monitor_leader_changes false (false ∷ true ∷ true ∷ [])) follower).is_leader
      ≡ last_seen false (false ∷ true ∷ true ∷ []))
    × (alternates false (monitor_leader_changes false (false ∷ true ∷ true ∷ [])) ≡ true)
unfolding follower
notify-monitor_leader_changes_example =
    notify-monitor_leader_changes (false ∷ true ∷ true ∷ []) false follower refl

-- a node that follows: it refuses to add voters, and is bootstrapped with the servers that are given
pub record Node : Type 0 where
  pub servers : List Raft.Server

abbrev last : List String → String
last [] = ""
last (s ∷ ss) = s

abbrev pub library : RaftLibrary Node
library = record {
  TcpAddress = Unit {0};
  Transport = Unit {0};
  BoltStore = Unit {0};
  SnapshotStore = Unit {0};
  Raft = Unit {0};
  join_path = last;
  make_directories = λ d w. (ok tt, w);
  resolve_tcp_address = λ n a w. (ok tt, w);
  new_tcp_transport = λ a t p d w. (ok tt, w);
  local_address = λ t. ":1";
  new_bolt_store = λ f w. (ok tt, w);
  new_file_snapshot_store = λ d n w. (ok tt, w);
  new_raft = λ i f l s n t w. (ok tt, w);
  bootstrap_cluster = λ r ss w. (ok tt, record w { servers = ss });
  add_voter = λ r i a w. (err (new "node is not the leader"), w);
  shutdown = λ r w. w;
  state = λ r w. Raft.follower;
  state_text = λ s. "Follower";
  leader_address = λ r w. "";
  get_configuration = λ r w. (ok w.servers, w);
}

abbrev pub joining : LeaderElection library
unfolding new_leader_election
joining = new_leader_election library "n" ":1" ("m" ∷ [])

abbrev pub open_node : Node
open_node = record { servers = [] }

refuses : Refuses library tt
refuses = record { state_law = λ p w f. refl; configuration_law = λ p w f. refl }

start-peers_example :
    let (u, (le', v)) = start library joining open_node in
    (u ≡ ok tt) × (is_leader library le' v ≡ false) × ((get_peers library le' v).0 ≡ [])
unfolding open_stores joining
start-peers_example =
    start-peers library joining "m" [] open_node open_node open_node
      (record { transport = tt; log_store = tt; stable_store = tt; snapshot_store = tt }) tt refl
      refl refl (λ e. ground (arith)) refuses

-- an encoding that is right for one map, and for the nil map
abbrev quoting : Json
quoting = record {
  encode = λ m. elim m [ none ↦ ok "null" | some m ↦ ok "{}" ];
  decode = λ d. (ok tt, if str_eq d "null" then none else some (("0", "a") ∷ ("1", "b") ∷ []));
}

abbrev paper : SnapshotSink (List String)
paper = record { write = λ d w. (ok tt, d ∷ w); cancel = λ w. (ok tt, w); close = λ w. (ok tt, w) }

abbrev digit : ℕ → String
digit n = if n == 0 then "0" else "1"

abbrev entry : ℕ → String → Entry
entry i text = record { index = i; text = text }

-- the map at the address 0 has one key
abbrev maps : Maps
maps = record { cells = λ p. ("0", "a") ∷ []; next = 1 }

apply-new_cluster_fsm_example :
    (apply digit (entry 1 "b") new_cluster_fsm maps ≡ panics)
    × (persist quoting paper (snapshot new_cluster_fsm) maps []
        ≡ ended quoting paper (paper.write "null" []))
    × ((restore quoting "null" new_cluster_fsm maps).0 ≡ ok tt)
    × (apply digit
          (entry 1 "b")
          (restore quoting "null" new_cluster_fsm maps).1.0
          (restore quoting "null" new_cluster_fsm maps).1.1
        ≡ panics)
apply-new_cluster_fsm_example =
    apply-new_cluster_fsm quoting paper digit (entry 1 "b") new_cluster_fsm maps maps [] "null" refl
      refl

abbrev other : ClusterFsm
other = record { state = some 0 }

lookup-restore_example :
    Yields
      (λ h'.
        (persist quoting paper (snapshot other) h' [] ≡ ended quoting paper (paper.write "{}" []))
        × ((restore quoting "{}" new_cluster_fsm maps).0 ≡ ok tt)
        × Yields
            (λ (last, last').
              (k : String)
              → lookup k (restore quoting "{}" new_cluster_fsm maps).1.0 last'
                ≡ lookup k other last)
            (do
              h'' ← apply_all digit (entry 0 "c" ∷ []) other h'
              g' ←
                  apply_all digit
                    (entry 1 "b" ∷ entry 0 "c" ∷ [])
                    (restore quoting "{}" new_cluster_fsm maps).1.0
                    (restore quoting "{}" new_cluster_fsm maps).1.1
              done (h'', g')))
      (apply_all digit (entry 1 "b" ∷ []) other maps)
unfolding put_all put find
lookup-restore_example =
    lookup-restore quoting paper digit other new_cluster_fsm 0 maps maps (entry 1 "b" ∷ [])
      (entry 0 "c" ∷ []) [] "{}" (("0", "a") ∷ ("1", "b") ∷ []) refl refl refl λ k. refl
