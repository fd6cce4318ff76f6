-- ===== src/Coordinator/Loops.antt =====
-- internal/cluster/distributed_coordinator.go: the three loops that Start starts and Stop ends, over the
-- ticks of their tickers. The two that only write to the log are given what was written.
use distributed_grpc_task_ma.Prelude.{
  ◌≡◌, ◌∙◌, ap, String, Bool, true, false, List, [], ◌∷◌, ◌++◌, some, ltb_ℤ, sub_ℕ, if◌then◌else◌,
  arith,
}
use distributed_grpc_task_ma.Prelude.Maps.{find, find-adjust}
use distributed_grpc_task_ma.Prelude.Outcome.{Outcome, done, Yields, yields, Yields-weaken}
use distributed_grpc_task_ma.Prelude.Ticks.{Event, tick, cancelled, ticking}
use distributed_grpc_task_ma.Types.{Time, Duration}
use distributed_grpc_task_ma.Coordinator.{
  DistributedCoordinator, Peer, broadcast_heartbeat, expire, discover_peers, rebalance_load,
}

unfoldable pub heartbeat_loop : List Event → DistributedCoordinator → Outcome DistributedCoordinator
unfolding broadcast_heartbeat ticking
heartbeat_loop events c = ticking (λ now c'. done (broadcast_heartbeat now c')) events c

-- the coordinator, and the ids in the log
abbrev pub Logged : Type 0
Logged = DistributedCoordinator × List String

unfoldable pub peer_discovery : List Event → Logged → Outcome Logged
unfolding discover_peers ticking
peer_discovery events s = ticking (λ now (c, log). done (c, log ++ discover_peers c)) events s

unfoldable pub load_balancing : List Event → Logged → Outcome Logged
unfolding rebalance_load ticking
load_balancing events s = ticking (λ now (c, log). done (c, log ++ rebalance_load c)) events s

-- whether the loop ticks, before it is ended, at an instant that is later than `seen` by more than the
-- timeout
unfoldable pub ticks_late : Duration → Time → List Event → Bool
ticks_late timeout seen [] = false
ticks_late timeout seen (cancelled ∷ rest) = false
ticks_late timeout seen (tick now ∷ rest) =
    let later = ticks_late timeout seen rest in
    if ltb_ℤ timeout (sub_ℕ now seen) then true else later

marked : Bool → Peer → Peer
marked late p = record p { status = if late then "offline" else p.status }

find-broadcast_heartbeat :
    (now : Time) (c : DistributedCoordinator) (id : String) (p : Peer)
    → find id c.peers ≡ some p
    → find id (broadcast_heartbeat now c).peers
      ≡ some (marked (ltb_ℤ c.timeout (sub_ℕ now p.last_seen)) p)
unfolding broadcast_heartbeat marked
find-broadcast_heartbeat now c id p e =
    ground (arith, find-adjust (expire now c.timeout) id c.peers)

status-marked :
    (late later : Bool) (t : String)
    → (if later then "offline" else (if late then "offline" else t))
      ≡ (if (if late then true else later) then "offline" else t)
status-marked late later t = ground arith

-- Whenever the heartbeat loop ticks and is ended, it returns, and a peer that is in the map is as it was,
-- but marked as offline if the loop ticked too late for the time at which the peer was last seen.
pub heartbeat_loop_lem :
    (events : List Event) (c : DistributedCoordinator) (id : String) (p : Peer)
    → find id c.peers ≡ some p
    → Yields
        (λ d.
          find id d.peers
          ≡ some (record p {
            status = if ticks_late c.timeout p.last_seen events then "offline" else p.status;
          }))
        (heartbeat_loop events c)
unfolding heartbeat_loop ticking ticks_late marked broadcast_heartbeat
heartbeat_loop_lem [] c id p e = yields e
heartbeat_loop_lem (cancelled ∷ rest) c id p e = yields e
heartbeat_loop_lem (tick now ∷ rest) c id p e =
    Yields-weaken
      (heartbeat_loop_lem rest (broadcast_heartbeat now c) id
        (marked (ltb_ℤ c.timeout (sub_ℕ now p.last_seen)) p)
        (find-broadcast_heartbeat now c id p e))
      λ d q.
        q
        ∙ ap (λ t. some (record p { status = t }))
            (status-marked (ltb_ℤ c.timeout (sub_ℕ now p.last_seen))
              (ticks_late c.timeout p.last_seen rest) p.status)
