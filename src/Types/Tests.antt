-- ===== src/Types/Tests.antt =====
-- The theorems about tasks at concrete ones.
use distributed_grpc_task_ma.Prelude.{◌≡◌, pos, negsuc, if◌then◌else◌}
use distributed_grpc_task_ma.Types.{
  priority_string, parse_priority, status_string, parse_status, priority_low, status_pending,
}
use distributed_grpc_task_ma.Types.Names.{is_below, parse-string}

parse-string_example :
    (parse_priority (priority_string (negsuc 4))
      ≡ (if is_below 3 (negsuc 4) then negsuc 4 else priority_low))
    × (parse_status (status_string (pos 4))
        ≡ (if is_below 5 (pos 4) then pos 4 else status_pending))
parse-string_example = parse-string (negsuc 4) (pos 4)
