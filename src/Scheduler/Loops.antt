-- ===== src/Scheduler/Loops.antt =====
-- internal/scheduler/scheduler.go: Start, and the loops of the goroutines that it starts.
use distributed_grpc_task_ma.Prelude.{List, some}
use distributed_grpc_task_ma.Prelude.Effects.{Result, ok, err, wrap}
use distributed_grpc_task_ma.Prelude.Outcome.{Outcome, done, ◌>>=◌}
use distributed_grpc_task_ma.Prelude.Ticks.{Event, ticking}
use distributed_grpc_task_ma.Types.{Time}
use distributed_grpc_task_ma.Storage.{Storage}
use distributed_grpc_task_ma.Worker
use distributed_grpc_task_ma.Worker.{new_worker_pool}
use distributed_grpc_task_ma.Scheduler.{Scheduler}
use distributed_grpc_task_ma.Scheduler.Queries.{update_node_info}
use distributed_grpc_task_ma.Scheduler.Duties.{
  distribute_tasks, check_failures, reassign_failed_tasks, check_backpressure, check_autoscaling,
}

-- Start, given what Start of the leader election returns; Start of the workers does not fail. The
-- goroutines that it starts are the loops below and recovery_process.
unfoldable pub start :
    {S : Type 0} → Result (Unit {0}) → Scheduler S → Result (Unit {0}) × Scheduler S
unfolding Worker.start new_worker_pool
start (err e) s = (err (wrap "failed to start leader election" e), s)
start (ok _) s = (ok tt, record s { worker_pool = some (Worker.start (new_worker_pool 5)) })

module _ {S : Type 0} (storage : Storage S) where
  -- the first report is at `now`
  unfoldable pub leader_responsibilities : Time → List Event → Scheduler S → Outcome (Scheduler S)
  unfolding update_node_info ticking
  leader_responsibilities now events s =
      ticking (λ t s'. done (update_node_info storage t s')) events (update_node_info storage now s)

  unfoldable pub heartbeat : List Event → Scheduler S → Outcome (Scheduler S)
  unfolding update_node_info ticking
  heartbeat events s = ticking (λ t s'. done (update_node_info storage t s')) events s

module _ {S : Type 0} where
  unfoldable pub distributed_task_distribution : List Event → Scheduler S → Outcome (Scheduler S)
  unfolding distribute_tasks ticking
  distributed_task_distribution events s = ticking (distribute_tasks) events s

  -- what the checks find goes to the log
  unfoldable pub backpressure_monitoring : List Event → Scheduler S → Outcome (Scheduler S)
  unfolding check_backpressure ticking
  backpressure_monitoring events s =
      ticking (λ t s'. check_backpressure s' >>= λ _. done s') events s

  unfoldable pub autoscaling : List Event → Scheduler S → Outcome (Scheduler S)
  unfolding check_autoscaling ticking
  autoscaling events s = ticking (check_autoscaling) events s

module _ {S : Type 0} (storage : Storage S) where
  unfoldable pub failure_detection : List Event → Scheduler S → Outcome (Scheduler S)
  unfolding check_failures ticking
  failure_detection events s = ticking (check_failures storage) events s

  unfoldable pub task_reassignment : List Event → Scheduler S → Outcome (Scheduler S)
  unfolding reassign_failed_tasks ticking
  task_reassignment events s = ticking (λ t s'. reassign_failed_tasks storage s') events s
