-- ===== src/Cli/Commands.antt =====
-- The client against the server: what the flags become.
use mathlib.Core.Option.{map as option_map}
use distributed_grpc_task_ma.Prelude.{String, Bool, ◌||◌, str_eq}

abbrev pub names_priority : String → Bool
names_priority flag = str_eq flag "high" || str_eq flag "medium" || str_eq flag "low"

abbrev pub names_status : String → Bool
names_status flag =
    str_eq flag "pending"
    || str_eq flag "running"
    || str_eq flag "completed"
    || str_eq flag "failed"
