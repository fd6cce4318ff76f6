-- ===== src/Grpc/Convert.antt =====
-- A status or a priority that goes out through the server and comes back in.
use distributed_grpc_task_ma.Prelude.{◌≡◌, ◌||◌, eqb_ℤ, if◌then◌else◌, arith}
use distributed_grpc_task_ma.Types.{
  Status, Priority, status_pending, status_running, status_completed, status_failed, priority_low,
  priority_medium, priority_high,
}
use distributed_grpc_task_ma.Grpc.{
  convert_status, convert_proto_status, convert_priority, convert_proto_priority,
}

-- A status that is sent and received again is the same if it is pending, running, completed or failed;
-- any other, also the status of a task that has timed out, becomes pending. A priority is the same if it
-- is one of the three, and any other becomes low.
pub convert_status-convert_proto_status :
    (s : Status) (p : Priority)
    → (convert_status (convert_proto_status s) ≡ (
        if eqb_ℤ s status_running || (eqb_ℤ s status_completed || eqb_ℤ s status_failed)
        then s
        else status_pending))
      × (convert_priority (convert_proto_priority p)
          ≡ (if eqb_ℤ p priority_high || eqb_ℤ p priority_medium then p else priority_low))
unfolding convert_status convert_proto_status convert_priority convert_proto_priority
convert_status-convert_proto_status s p = ground arith
