-- ===== src/Cli.antt =====
-- cmd/cli/main.go: the commands of the client, from the answers of the server to the lines that are
-- printed. The connection is a parameter: a call gives an answer of the server or an error. How fmt
-- writes numbers and the generated code names the enums are parameters too.
pub mod Print
pub mod Commands
mod Tests
use Prim.Native.String.{◌++◌}
use distributed_grpc_task_ma.Prelude.{
  ℕ, String, Bool, true, false, List, [], ◌∷◌, Option, none, some, ℤ, pos, str_eq, if◌then◌else◌,
}
use distributed_grpc_task_ma.Prelude.Effects.{Result, ok, err, error_text}
use distributed_grpc_task_ma.Grpc.{ProtoPriority, ProtoStatus, TaskResponse, ListTasksResponse}
use distributed_grpc_task_ma.Grpc.Cluster.{
  GetStatsResponse, GetClusterInfoResponse, HealthCheckResponse,
}
use distributed_grpc_task_ma.Cli.Print.{
  Format, print_task, print_tasks, print_nodes, stats_lines, submitted_lines, health_lines,
  info_lines,
}

-- the lines that were printed, and the message of log.Fatal if the command ends so; an answer that says
-- that it succeeded but has no task is read through a nil pointer
pub data Run : Type 0 where
  prints : List String → Run
  fatal : String → Run
  panicked : Run

-- what the server answers to each call
pub record Client : Type 0 where
  pub get_stats : Result GetStatsResponse
  pub submit_task : ProtoPriority → List ℕ → Result TaskResponse
  pub get_tasks_by_status : ProtoStatus → Result ListTasksResponse
  pub list_tasks : Result ListTasksResponse
  pub get_task : String → Result TaskResponse
  pub health_check : Result HealthCheckResponse
  pub get_cluster_info : Result GetClusterInfoResponse

-- the `switch` of submitTask on the flag for the priority
unfoldable pub flag_priority : String → ProtoPriority
flag_priority flag =
    if str_eq flag "high"
    then pos 3
    else if str_eq flag "medium"
    then pos 2
    else if str_eq flag "low"
    then pos 1
    else pos 2

-- the `switch` of listTasks on the flag for the status
unfoldable pub flag_status : String → Option ProtoStatus
flag_status flag =
    if str_eq flag "pending"
    then some (pos 1)
    else if str_eq flag "running"
    then some (pos 2)
    else if str_eq flag "completed"
    then some (pos 3)
    else if str_eq flag "failed"
    then some (pos 4)
    else none

module _ (f : Format) where
  unfoldable pub show_stats : Result GetStatsResponse → Run
  show_stats (err e) = fatal ("Failed to get stats: " ++ error_text e)
  show_stats (ok r) =
      if r.success then prints (stats_lines f r) else fatal ("Failed to get stats: " ++ r.error)

  unfoldable pub submitted : Result TaskResponse → Run
  submitted (err e) = fatal ("Failed to submit task: " ++ error_text e)
  submitted (ok r) =
      if r.success
      then elim r.task [ none ↦ panicked | some t ↦ prints (submitted_lines f t) ]
      else fatal ("Failed to submit task: " ++ r.error)

  -- the title, and what a message begins with if the call fails and if the server refuses it
  abbrev pub listed : String → String → String → Result ListTasksResponse → Run
  listed title failed refused (err e) = fatal (failed ++ error_text e)
  listed title failed refused (ok r) =
      if r.success then prints (title ∷ print_tasks f r.tasks) else fatal (refused ++ r.error)

  unfoldable pub shown : Result TaskResponse → Run
  shown (err e) = fatal ("Failed to get task: " ++ error_text e)
  shown (ok r) =
      if r.success
      then elim r.task [ none ↦ panicked | some t ↦ prints (print_task f t) ]
      else fatal ("Failed to get task: " ++ r.error)

  unfoldable pub check_health : Result HealthCheckResponse → Run
  check_health (err e) = fatal ("Failed to check health: " ++ error_text e)
  check_health (ok r) = prints (health_lines f r)

  unfoldable pub show_cluster_info : Result GetClusterInfoResponse → Run
  show_cluster_info (err e) = fatal ("Failed to get cluster info: " ++ error_text e)
  show_cluster_info (ok r) =
      if r.success
      then prints (info_lines f r.info)
      else fatal ("Failed to get cluster info: " ++ r.error)

-- the flags
pub record Flags : Type 0 where
  pub command : String
  pub priority : String
  pub payload : List ℕ
  pub id : String
  pub status : String

abbrev pub commands : String
commands = "Available commands: stats, submit, list, get, health, cluster"

module _ (f : Format) (client : Client) where
  unfoldable pub cli_submit : String → List ℕ → Run
  unfolding flag_priority submitted
  cli_submit priority payload = submitted f (client.submit_task (flag_priority priority) payload)

  unfoldable pub cli_list : String → Run
  unfolding flag_status
  cli_list filter =
      if str_eq filter ""
      then listed f "All tasks:" "Failed to list tasks: " "Failed to list tasks: " client.list_tasks
      else elim (flag_status filter) [
        | none ↦ fatal ("Invalid status: " ++ filter)
        | some s ↦
            listed f ("Tasks with status '" ++ filter ++ "':") "Failed to get tasks by status: "
              "Failed to get tasks: " (client.get_tasks_by_status s)
      ]

  unfoldable pub cli_get : String → Run
  unfolding shown
  cli_get id = if str_eq id "" then fatal "Task ID is required" else shown f (client.get_task id)

  -- the `switch` of main
  unfoldable pub cli_main : Flags → Run
  unfolding show_stats cli_submit cli_list cli_get check_health show_cluster_info
  cli_main flags =
      if str_eq flags.command "stats"
      then show_stats f client.get_stats
      else if str_eq flags.command "submit"
      then cli_submit flags.priority flags.payload
      else if str_eq flags.command "list"
      then cli_list flags.status
      else if str_eq flags.command "get"
      then cli_get flags.id
      else if str_eq flags.command "health"
      then check_health f client.health_check
      else if str_eq flags.command "cluster"
      then show_cluster_info f client.get_cluster_info
      else prints (("Unknown command: " ++ flags.command) ∷ commands ∷ [])
