-- ===== src/Coordinator.antt =====
-- internal/cluster/distributed_coordinator.go: the peers that a node knows, their load and who leads.
-- Each method holds the coordinator's lock throughout, so a method is one step. The order of a `range`
-- over the peers is that of the association list, and the theorems hold for every order.
pub mod Least
pub mod Steps
pub mod Load
pub mod Loops
mod Tests
use distributed_grpc_task_ma.Prelude.{
  ℕ, zero, suc, ◌+◌, ◌*◌, ◌/◌, String, Bool, true, false, ◌&&◌, ◌||◌, List, [], ◌∷◌, map, Option,
  none, some, ℤ, pos, negsuc, ltb_ℤ, sub_ℕ, pos_part, neg_part, length, select, ◌==◌, str_eq,
  if◌then◌else◌,
}
use distributed_grpc_task_ma.Prelude.Maps.{StrMap, find, put, remove, adjust, values}
use distributed_grpc_task_ma.Types.{Time, Duration, NodeInfo}

pub record Peer : Type 0 where
  pub id : String
  pub address : String
  pub last_seen : Time
  pub status : String
  pub load : ℤ
  pub is_leader : Bool

pub record DistributedCoordinator : Type 0 where
  pub node_id : String
  pub peers : StrMap Peer
  pub leader : Bool
  pub leader_id : String
  pub heartbeat : Duration
  pub timeout : Duration

unfoldable pub new_distributed_coordinator : String → Duration → Duration → DistributedCoordinator
new_distributed_coordinator node_id heartbeat timeout = record {
  node_id = node_id;
  peers = [];
  leader = false;
  leader_id = "";
  heartbeat = heartbeat;
  timeout = timeout;
}

abbrev pub is_online : Peer → Bool
is_online p = str_eq p.status "online"

-- the body of the loop of broadcastHeartbeat
abbrev pub expire : Time → Duration → Peer → Peer
expire now timeout p =
    if ltb_ℤ timeout (sub_ℕ now p.last_seen) then record p { status = "offline" } else p

unfoldable pub broadcast_heartbeat : Time → DistributedCoordinator → DistributedCoordinator
broadcast_heartbeat now c = record c { peers = adjust (expire now c.timeout) c.peers }

-- the ids that discoverPeers writes to the log
unfoldable pub discover_peers : DistributedCoordinator → List String
discover_peers c = map (λ p. p.id) (select (λ p. str_eq p.status "offline") (values c.peers))

-- a + b and a / n on Go's `int`, which divides towards zero
unfoldable pub add_int : ℤ → ℤ → ℤ
add_int a b = sub_ℕ (pos_part a + pos_part b) (neg_part a + neg_part b)

unfoldable pub div_int : ℤ → ℕ → ℤ
div_int (pos a) n = pos (a / n)
div_int (negsuc a) n = sub_ℕ 0 (suc a / n)

unfoldable pub total_load : List Peer → ℤ → ℤ
unfolding add_int
total_load [] total = total
total_load (p ∷ ps) total = total_load ps (add_int total p.load)

unfoldable pub calculate_average_load : List Peer → ℤ
unfolding total_load div_int
calculate_average_load ps =
    if length ps == 0 then pos 0 else div_int (total_load ps (pos 0)) (length ps)

-- the ids of the peers that rebalanceLoad reports as having a high load
unfoldable pub rebalance_load : DistributedCoordinator → List String
unfolding calculate_average_load
rebalance_load c =
    let ps = select is_online (values c.peers) in
    let average = calculate_average_load ps in
    if length ps == 0
    then []
    else map (λ p. p.id) (select (λ p. ltb_ℤ (add_int average average) p.load) ps)

unfoldable pub add_peer : String → String → Time → DistributedCoordinator → DistributedCoordinator
add_peer id address now c =
    let peer : Peer = record {
      id = id;
      address = address;
      last_seen = now;
      status = "online";
      load = pos 0;
      is_leader = false;
    } in
    record c { peers = put id peer c.peers }

unfoldable pub remove_peer : String → DistributedCoordinator → DistributedCoordinator
remove_peer id c = record c { peers = remove id c.peers }

unfoldable pub update_peer_load :
    String → ℤ → Time → DistributedCoordinator → DistributedCoordinator
update_peer_load id load now c = elim (find id c.peers) [
  | none ↦ c
  | some p ↦ record c { peers = put id (record p { load = load; last_seen = now }) c.peers }
]

-- the loop of GetLeastLoadedPeer: `least` is nil until an online peer is met
unfoldable pub least_loaded : List Peer → Option Peer → Option Peer
least_loaded [] least = least
least_loaded (p ∷ ps) least = least_loaded ps (
    if is_online p && (elim least [ none ↦ true | some l ↦ ltb_ℤ p.load l.load ])
    then some p
    else least)

abbrev pub id_or_empty : Option Peer → String
id_or_empty none = ""
id_or_empty (some p) = p.id

unfoldable pub get_least_loaded_peer : DistributedCoordinator → String
unfolding least_loaded
get_least_loaded_peer c = id_or_empty (least_loaded (values c.peers) none)

unfoldable pub set_leader : String → DistributedCoordinator → DistributedCoordinator
set_leader leader_id c = record c {
  leader_id = leader_id;
  leader = str_eq leader_id c.node_id;
  peers = adjust (λ p. record p { is_leader = str_eq p.id leader_id }) c.peers;
}

unfoldable pub is_leader : DistributedCoordinator → Bool
is_leader c = c.leader

unfoldable pub get_leader_id : DistributedCoordinator → String
get_leader_id c = c.leader_id

unfoldable pub get_peers : DistributedCoordinator → List NodeInfo
get_peers c =
    map
      (λ p. record {
        id = p.id;
        address = p.address;
        is_leader = p.is_leader;
        last_seen = p.last_seen;
        status = p.status;
      })
      (values c.peers)
