-- ===== src/Coordinator/Steps.antt =====
-- The coordinator as a state machine: its methods in any order, at any time.
use distributed_grpc_task_ma.Prelude.{
  ◌≡◌, refl, String, Bool, false, List, ◌∷◌, inl, inr, Option-cases, Option, none, some, ℤ, str_eq,
  eq_iff, arith, if◌then◌else◌, [], ltb_ℤ, sub_ℕ,
}
use distributed_grpc_task_ma.Prelude.Maps.{find, adjust, find-put, find-remove, find-adjust}
use distributed_grpc_task_ma.Types.{Time}
use distributed_grpc_task_ma.Coordinator.{
  Peer, DistributedCoordinator, broadcast_heartbeat, expire, add_peer, remove_peer,
  update_peer_load, set_leader, is_leader, get_leader_id,
}

-- a call of a method that writes
pub data Call : Type 0 where
  heartbeat : Time → Call
  add : String → String → Time → Call
  remove : String → Call
  load : String → ℤ → Time → Call
  lead : String → Call

unfoldable pub perform : Call → DistributedCoordinator → DistributedCoordinator
unfolding broadcast_heartbeat add_peer remove_peer set_leader
perform (heartbeat now) c = broadcast_heartbeat now c
perform (add id address now) c = add_peer id address now c
perform (remove id) c = remove_peer id c
perform (load id n now) c = update_peer_load id n now c
perform (lead id) c = set_leader id c

pub data Reaches (c : DistributedCoordinator) : DistributedCoordinator → Type 0 where
  here : Reaches c c
  next : {d : DistributedCoordinator} (k : Call) → Reaches c d → Reaches c (perform k d)

find-update_peer_load :
    (i id : String) (n : ℤ) (now : Time) (c : DistributedCoordinator)
    → find id (update_peer_load i n now c).peers ≡ (elim (find id c.peers) [
      | none ↦ none
      | some p ↦ some (if str_eq i id then record p { load = n; last_seen = now } else p)
    ])
unfolding update_peer_load
find-update_peer_load i id n now c = elim (Option-cases (find i c.peers)) [
  | inl absent ↦ rw (absent, update_peer_load) (ground (arith, eq_iff i id))
  | inr (p, there) ↦
      rw (there, update_peer_load)
        (ground
          (arith, eq_iff i id, find-put i id (record p { load = n; last_seen = now }) c.peers))
]

-- each peer is kept under its own id
abbrev pub IsKeyed : DistributedCoordinator → Type 0
IsKeyed c = (id : String) (p : Peer) → find id c.peers ≡ some p → p.id ≡ id

-- the same of a peer that may be missing
abbrev KeyedAs : String → Option Peer → Type 0
KeyedAs id none = Unit {0}
KeyedAs id (some p) = p.id ≡ id

keyed_of : (id : String) (o : Option Peer) → ((p : Peer) → o ≡ some p → p.id ≡ id) → KeyedAs id o
keyed_of id none h = tt
keyed_of id (some p) h = h p refl

of_keyed : (id : String) (o : Option Peer) → KeyedAs id o → (p : Peer) → o ≡ some p → p.id ≡ id
of_keyed id none k p e = absurd (cc)
of_keyed id (some q) k p e = ground arith

perform-KeyedAs :
    (k : Call) (c : DistributedCoordinator) (id : String)
    → IsKeyed c
    → KeyedAs id (find id (perform k c).peers)
unfolding perform
perform-KeyedAs k c id v = by_call k (keyed_of id (find id c.peers) (v id))
  where
    by_call : (k : Call) → KeyedAs id (find id c.peers) → KeyedAs id (find id (perform k c).peers)
    by_call (heartbeat now) h = ground (arith, find-adjust (expire now c.timeout) id c.peers)
    by_call (add i a now) h = rw find-put (ground (arith, eq_iff i id))
    by_call (remove i) h = ground (arith, find-remove i id c.peers)
    by_call (load i n now) h = rw find-update_peer_load (ground arith)
    by_call (lead i) h = rw find-adjust (ground arith)

-- Whatever calls are made, in whatever order, each peer is kept under its own id.
pub Reaches-IsKeyed : {c d : DistributedCoordinator} → IsKeyed c → Reaches c d → IsKeyed d
Reaches-IsKeyed v here = v
Reaches-IsKeyed v (next {d = d} k r) =
    λ id. of_keyed id (find id (perform k d).peers) (perform-KeyedAs k d id (Reaches-IsKeyed v r))

pub perform_all : List Call → DistributedCoordinator → DistributedCoordinator
perform_all [] c = c
perform_all (k ∷ ks) c = perform_all ks (perform k c)

-- whether a call registers or removes the peer
abbrev pub replaces : String → Call → Bool
replaces id (add i address now) = str_eq i id
replaces id (remove i) = str_eq i id
replaces id (heartbeat now) = false
replaces id (load i n now) = false
replaces id (lead i) = false

abbrev pub KeepsPeer : String → List Call → Type 0
KeepsPeer id [] = Unit {0}
KeepsPeer id (k ∷ ks) = (replaces id k ≡ false) × KeepsPeer id ks

-- the peer is known, and marked as offline
abbrev IsOfflinePeer : Option Peer → Type 0
IsOfflinePeer none = ⊥
IsOfflinePeer (some p) = p.status ≡ "offline"

abbrev pub IsOffline : String → DistributedCoordinator → Type 0
IsOffline id c = IsOfflinePeer (find id c.peers)

perform-IsOffline :
    (k : Call) (c : DistributedCoordinator) (id : String)
    → replaces id k ≡ false
    → IsOffline id c
    → IsOffline id (perform k c)
unfolding perform
perform-IsOffline (heartbeat now) c id e h = rw find-adjust (ground arith)
perform-IsOffline (add i a now) c id e h = rw find-put (ground arith)
perform-IsOffline (remove i) c id e h = rw find-remove (ground arith)
perform-IsOffline (lead i) c id e h = rw find-adjust (ground arith)
perform-IsOffline (load i n now) c id e h = rw find-update_peer_load (ground arith)

-- A peer that is marked as offline stays so through heartbeats, load reports and changes of the
-- leader, until it is added anew or removed.
pub perform_all-IsOffline :
    (ks : List Call) (c : DistributedCoordinator) (id : String)
    → KeepsPeer id ks
    → IsOffline id c
    → IsOffline id (perform_all ks c)
unfolding perform_all
perform_all-IsOffline [] c id keeps h = h
perform_all-IsOffline (k ∷ ks) c id keeps h =
    perform_all-IsOffline ks (perform k c) id keeps.1 (perform-IsOffline k c id keeps.0 h)

-- After SetLeader exactly the peer with the leader's id is marked as the leader, the node itself knows
-- whether it leads, and the leader's id is remembered.
pub set_leader_lem :
    (c : DistributedCoordinator) (leader id : String) (p : Peer)
    → IsKeyed c
    → find id (set_leader leader c).peers ≡ some p
    → (p.is_leader ≡ str_eq id leader)
      × (is_leader (set_leader leader c) ≡ str_eq leader c.node_id)
      × (get_leader_id (set_leader leader c) ≡ leader)
unfolding set_leader is_leader get_leader_id
set_leader_lem c leader id p v e = (
  elim (Option-cases (find id c.peers)) [
    | inl absent ↦ absurd (ground (arith, flags, absent))
    | inr (q, there) ↦ ground (arith, flags, there, v id q there)
  ],
  refl,
  refl,
)
  where
    flags :
        find id (adjust (λ q. record q { is_leader = str_eq q.id leader }) c.peers)
        ≡ (elim (find id c.peers) [
          | none ↦ none
          | some q ↦ some (record q { is_leader = str_eq q.id leader })
        ])
    flags = find-adjust (λ q. record q { is_leader = str_eq q.id leader }) id c.peers

timeout-update_peer_load :
    (c : DistributedCoordinator) (id : String) (n : ℤ) (now : Time)
    → (update_peer_load id n now c).timeout ≡ c.timeout
unfolding update_peer_load
timeout-update_peer_load c id n now = ground arith

reported :
    (c : DistributedCoordinator) (id : String) (n : ℤ) (seen : Time) (p : Peer)
    → find id c.peers ≡ some p
    → find id (update_peer_load id n seen c).peers ≡ some (record p { load = n; last_seen = seen })
reported c id n seen p e = ground (arith, find-update_peer_load id id n seen c, eq_iff id id)

-- A peer that reported its load at `seen` keeps its status in a heartbeat at `now` if that is within
-- the timeout, and is marked as offline if it is not; the load stays the reported one.
pub heartbeat-load :
    (c : DistributedCoordinator) (id : String) (n : ℤ) (seen now : Time) (p : Peer)
    → find id c.peers ≡ some p
    → find id (broadcast_heartbeat now (update_peer_load id n seen c)).peers
      ≡ some (record p {
        load = n;
        last_seen = seen;
        status = if ltb_ℤ c.timeout (sub_ℕ now seen) then "offline" else p.status;
      })
unfolding broadcast_heartbeat
heartbeat-load c id n seen now p e =
    rw (find-adjust, reported c id n seen p e, timeout-update_peer_load c id n seen) (ground arith)
