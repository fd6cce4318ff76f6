-- ===== src/Election/Monitor.antt =====
-- The scheduler's view of who leads, under the calls that the election makes.
use distributed_grpc_task_ma.Prelude.{◌≡◌, refl, Bool, true, false, List, [], ◌∷◌, if◌then◌else◌}
use distributed_grpc_task_ma.Election.{monitor_leader_changes, changed}
use distributed_grpc_task_ma.Scheduler.{Scheduler, on_leader_change}

-- the calls of onLeaderChange, one after the other
unfoldable pub notify : {S : Type 0} → List Bool → Scheduler S → Scheduler S
notify [] s = s
notify (leads ∷ rest) s = notify rest (on_leader_change leads s).0

abbrev pub last_seen : Bool → List Bool → Bool
last_seen was [] = was
last_seen was (is ∷ rest) = last_seen is rest

-- no call repeats the one before it
unfoldable pub alternates : Bool → List Bool → Bool
alternates was [] = true
alternates was (is ∷ rest) =
    let others = alternates is rest in if changed is was then others else false

-- Whatever IsLeader answers at the ticks, the calls of onLeaderChange never repeat the one before, and
-- leave a scheduler that knew who led with the answer of the last tick.
pub notify-monitor_leader_changes :
    {S : Type 0} (answers : List Bool) (was : Bool) (s : Scheduler S)
    → s.is_leader ≡ was
    → ((notify (monitor_leader_changes was answers) s).is_leader ≡ last_seen was answers)
      × (alternates was (monitor_leader_changes was answers) ≡ true)
unfolding notify monitor_leader_changes alternates on_leader_change
notify-monitor_leader_changes [] was s e = (e, refl)
notify-monitor_leader_changes (true ∷ rest) true s e = notify-monitor_leader_changes rest true s e
notify-monitor_leader_changes (false ∷ rest) false s e =
    notify-monitor_leader_changes rest false s e
notify-monitor_leader_changes (true ∷ rest) false s e =
    notify-monitor_leader_changes rest true (record s { is_leader = true }) refl
notify-monitor_leader_changes (false ∷ rest) true s e =
    notify-monitor_leader_changes rest false (record s { is_leader = false }) refl
