-- ===== src/Coordinator/Tests.antt =====
-- The coordinator's theorems at a concrete cluster.
use distributed_grpc_task_ma.Prelude.{
  ℕ, ◌≡◌, refl, String, false, [], ◌∷◌, pos, some, if◌then◌else◌,
}
use distributed_grpc_task_ma.Prelude.Maps.{find, values}
use distributed_grpc_task_ma.Prelude.Outcome.{Yields}
use distributed_grpc_task_ma.Prelude.Ticks.{tick, cancelled}
use distributed_grpc_task_ma.Coordinator.Loops.{ticks_late, heartbeat_loop, heartbeat_loop_lem}
use distributed_grpc_task_ma.Coordinator.{
  Peer, DistributedCoordinator, new_distributed_coordinator, get_least_loaded_peer,
}
use distributed_grpc_task_ma.Coordinator.Least.{IsChoice, get_least_loaded_peer-IsChoice}
use distributed_grpc_task_ma.Coordinator.Steps.{
  Call, heartbeat, load, lead, perform, perform_all, here, next, IsKeyed, Reaches-IsKeyed,
  IsOffline, perform_all-IsOffline,
}

abbrev peer : String → ℕ → String → Peer
peer id n status = record {
  id = id;
  address = id;
  last_seen = 0;
  status = status;
  load = pos n;
  is_leader = false;
}

abbrev cluster : DistributedCoordinator
cluster = record {
  node_id = "n1";
  peers = ("n1", peer "n1" 4 "online") ∷ ("n2", peer "n2" 1 "offline") ∷ [];
  leader = false;
  leader_id = "";
  heartbeat = pos 5;
  timeout = pos 30;
}

least_of_cluster : get_least_loaded_peer cluster ≡ "n1"
unfolding get_least_loaded_peer values
least_of_cluster = refl

get_least_loaded_peer-IsChoice_example :
    IsChoice (values cluster.peers) (get_least_loaded_peer cluster)
get_least_loaded_peer-IsChoice_example = get_least_loaded_peer-IsChoice cluster

empty-IsKeyed : IsKeyed (new_distributed_coordinator "n1" (pos 5) (pos 30))
unfolding new_distributed_coordinator find
empty-IsKeyed id p e = absurd (cc)

Reaches-IsKeyed_example :
    IsKeyed (perform (Call.add "n2" "host:1" 7) (new_distributed_coordinator "n1" (pos 5) (pos 30)))
Reaches-IsKeyed_example = Reaches-IsKeyed empty-IsKeyed (next (Call.add "n2" "host:1" 7) here)

perform_all-IsOffline_example :
    IsOffline "n2" (perform_all (load "n2" (pos 0) 9 ∷ heartbeat 10 ∷ lead "n2" ∷ []) cluster)
unfolding find
perform_all-IsOffline_example =
    perform_all-IsOffline (load "n2" (pos 0) 9 ∷ heartbeat 10 ∷ lead "n2" ∷ []) cluster "n2"
      (refl, (refl, (refl, tt))) refl

heartbeat_loop_lem_example :
    Yields
      (λ d.
        find "n1" d.peers
        ≡ some (record (peer "n1" 4 "online") {
          status =
              if ticks_late (pos 30) 0 (tick 20 ∷ tick 40 ∷ cancelled ∷ [])
              then "offline"
              else "online";
        }))
      (heartbeat_loop (tick 20 ∷ tick 40 ∷ cancelled ∷ []) cluster)
unfolding find
heartbeat_loop_lem_example =
    heartbeat_loop_lem (tick 20 ∷ tick 40 ∷ cancelled ∷ []) cluster "n1" (peer "n1" 4 "online") refl
