-- ===== src/Scheduler/Failures.antt =====
-- The nodes that a scheduler takes for failed.
use distributed_grpc_task_ma.Prelude.{
  ◌≡◌, refl, String, Bool, false, ◌&&◌, ◌||◌, List, [], ◌∷◌, some, str_eq, if◌then◌else◌, arith,
}
use distributed_grpc_task_ma.Prelude.Maps.{StrMap, find, put, find-put}
use distributed_grpc_task_ma.Types.{Time, NodeInfo}
use distributed_grpc_task_ma.Scheduler.Duties.{is_lost, mark_failed}

-- whether a node with the id is reported that is lost
unfoldable pub reports_lost : String → Time → String → List NodeInfo → Bool
reports_lost self now id [] = false
reports_lost self now id (n ∷ ns) =
    (str_eq n.id id && is_lost self now n) || reports_lost self now id ns

-- The check for failures records the present time for exactly the ids of the nodes that are lost, and
-- keeps what it had for the others.
pub find-mark_failed :
    (self : String) (now : Time) (id : String) (ns : List NodeInfo) (failed : StrMap Time)
    → find id (mark_failed self now ns failed)
      ≡ (if reports_lost self now id ns then some now else find id failed)
unfolding mark_failed reports_lost
find-mark_failed self now id [] failed = refl
find-mark_failed self now id (n ∷ ns) failed = ground (
  arith,
  find-mark_failed self now id ns failed,
  find-mark_failed self now id ns (put n.id now failed),
  find-put n.id id now failed,
)
