-- ===== src/Election.antt =====
-- internal/cluster/leader_election.go: the loop that reports changes of the leader. What IsLeader answers
-- at each tick is an argument. Raft has the calls of the raft library, and Fsm the state machine that is
-- handed to it.
pub mod Monitor
pub mod Raft
pub mod Setup
pub mod Fsm
pub mod Replay
pub mod Tests
use distributed_grpc_task_ma.Prelude.{
  ℕ, String, Bool, not, List, [], ◌∷◌, Option, none, some, if◌then◌else◌, ◌&&◌, ◌||◌,
}
use distributed_grpc_task_ma.Prelude.Maps.{StrMap, put}
use distributed_grpc_task_ma.Prelude.Outcome.{Outcome, done, panics}

-- `isLeader != wasLeader`
abbrev pub changed : Bool → Bool → Bool
changed is was = (is && not was) || (not is && was)

-- monitorLeaderChanges: the calls of onLeaderChange, given what IsLeader answers at each tick
unfoldable pub monitor_leader_changes : Bool → List Bool → List Bool
monitor_leader_changes was [] = []
monitor_leader_changes was (is ∷ rest) =
    let calls = monitor_leader_changes is rest in
    let same = monitor_leader_changes was rest in if changed is was then is ∷ calls else same
