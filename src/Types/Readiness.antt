-- ===== src/Types/Readiness.antt =====
-- When a task has run too long.
use distributed_grpc_task_ma.Prelude.{◌≡◌, ◌≤◌, true, arith}
use distributed_grpc_task_ma.Types.{Task, Time, has_timed_out}

-- A task that has timed out stays timed out as the clock goes on.
pub has_timed_out_mono :
    (t : Task) (now later : Time)
    → has_timed_out now t ≡ true
    → now ≤ later
    → has_timed_out later t ≡ true
unfolding has_timed_out
has_timed_out_mono t now later h le = ground arith
