-- ===== src/Grpc/Tests.antt =====
-- The theorems about the gRPC server, at concrete messages.
use distributed_grpc_task_ma.Prelude.{◌≡◌, ◌||◌, eqb_ℤ, if◌then◌else◌, pos}
use distributed_grpc_task_ma.Types.{
  status_pending, status_running, status_completed, status_failed, priority_low, priority_medium,
  priority_high,
}
use distributed_grpc_task_ma.Grpc.{
  convert_status, convert_proto_status, convert_priority, convert_proto_priority,
}
use distributed_grpc_task_ma.Grpc.Convert.{convert_status-convert_proto_status}

convert_status-convert_proto_status_example :
    (convert_status (convert_proto_status (pos 4)) ≡ (
      if eqb_ℤ (pos 4) status_running
        || (eqb_ℤ (pos 4) status_completed || eqb_ℤ (pos 4) status_failed)
      then pos 4
      else status_pending))
    × (convert_priority (convert_proto_priority (pos 2)) ≡ (
        if eqb_ℤ (pos 2) priority_high || eqb_ℤ (pos 2) priority_medium
        then pos 2
        else priority_low))
convert_status-convert_proto_status_example = convert_status-convert_proto_status (pos 4) (pos 2)
