-- ===== src/Scheduler/Duties.antt =====
-- internal/scheduler/scheduler.go: what the goroutines of a scheduler do in the background, one call at a
-- time (recovery at the start, then one call for each tick of a ticker).
use distributed_grpc_task_ma.Prelude.{
  ℕ, ◌+◌, ◌-◌, ◌*◌, String, Bool, true, false, not, ◌&&◌, ◌||◌, List, [], ◌∷◌, Option, none, some,
  pos, sub_ℕ, ltb_ℤ, eqb_ℤ, ltb, leb, ◌==◌, str_eq, if◌then◌else◌,
}
use distributed_grpc_task_ma.Prelude.Maps.{StrMap, put}
use distributed_grpc_task_ma.Prelude.Effects.{ok, err}
use distributed_grpc_task_ma.Prelude.Outcome.{Outcome, done, ◌>>=◌}
use distributed_grpc_task_ma.Types.{Task, Time, Duration, NodeInfo, status_pending, status_failed}
use distributed_grpc_task_ma.Storage.{Storage}
use distributed_grpc_task_ma.Queue.{PriorityQueue, add, len, get_stats}
use distributed_grpc_task_ma.Coordinator.{update_peer_load}
use distributed_grpc_task_ma.Worker.{WorkerPool}
use distributed_grpc_task_ma.Scheduler.{Scheduler, get_worker_metrics, Autoscaler, stored}

abbrev pub thirty_seconds : Duration
thirty_seconds = pos 30000000000

-- checkFailures: a node other than this one that was not seen for too long
unfoldable pub is_lost : String → Time → NodeInfo → Bool
is_lost self now n = not (str_eq n.id self) && ltb_ℤ thirty_seconds (sub_ℕ now n.last_seen)

unfoldable pub mark_failed : String → Time → List NodeInfo → StrMap Time → StrMap Time
unfolding is_lost
mark_failed self now [] failed = failed
mark_failed self now (n ∷ ns) failed =
    mark_failed self now ns (if is_lost self now n then put n.id now failed else failed)

-- reassignFailedTasks: the fields that it resets
unfoldable pub reset : Task → Task
reset t = record t {
  status = status_pending;
  started_at = none;
  completed_at = none;
  worker_id = "";
  error = "";
}

-- scaleWorkers: it changes nothing
unfoldable pub scale_workers : ℕ → Option WorkerPool → Bool
scale_workers target none = false
scale_workers target (some p) = true

-- `now.Sub(lastScaleTime) < cooldownPeriod`; from Go's zero time, Sub gives its largest duration
unfoldable pub is_cooling : Time → Autoscaler → Bool
is_cooling now a = elim a.last_scale_time [
  | none ↦ false
  | some last ↦ ltb_ℤ (sub_ℕ now last) a.cooldown_period
]

-- what checkAutoscaling decides: the new number of workers, if it calls scaleWorkers
unfoldable pub decide : ℕ → ℕ → ℕ → Autoscaler → Option ℕ
decide total limit workers a =
    if ltb (a.scale_up_threshold * limit) (10 * total) && ltb workers a.max_workers
    then some (workers + 1)
    else if ltb (10 * total) (a.scale_down_threshold * limit) && ltb a.min_workers workers
    then some (workers - 1)
    else none

-- the loop of recoveryProcess
unfoldable pub recover : List Task → PriorityQueue → Outcome PriorityQueue
recover [] q = done q
recover (t ∷ ts) q =
    let rest = recover ts q in
    if eqb_ℤ t.status status_pending then add q t >>= (λ q'. recover ts q') else rest

module _ {S : Type 0} where
  unfoldable pub distribute_tasks : Time → Scheduler S → Outcome (Scheduler S)
  distribute_tasks now s =
      if not s.is_leader
      then done s
      else len s.queue >>= λ n.
          if n == 0
          then done s
          else done
              (record s { coordinator = update_peer_load s.node_id (pos n) now s.coordinator })

  -- checkBackpressure: whether it warns of a high utilization, and whether it reports a full queue
  unfoldable pub check_backpressure : Scheduler S → Outcome (Bool × Bool)
  check_backpressure s =
      len s.queue >>= λ n. done (ltb (8 * s.max_queue_size) (10 * n), leb s.max_queue_size n)

  unfoldable pub check_autoscaling : Time → Scheduler S → Outcome (Scheduler S)
  unfolding is_cooling decide scale_workers get_worker_metrics
  check_autoscaling now s = if not s.is_leader || is_cooling now s.autoscaler then done s else do
    stats ← get_stats s.queue
    (m, s') ← get_worker_metrics s
    elim (decide stats.total_tasks s.max_queue_size m.worker_count s.autoscaler) [
      | none ↦ done s'
      | some target ↦
          if scale_workers target s'.worker_pool
          then done (record s' { autoscaler = record s'.autoscaler { last_scale_time = some now } })
          else done s'
    ]

module _ {S : Type 0} (storage : Storage S) where
  unfoldable pub recovery_process : Scheduler S → Outcome (Scheduler S)
  unfolding recover
  recovery_process s =
      let (r, s') = stored storage.get_queue_tasks s in
      elim r [
        | err e ↦ done s'
        | ok ts ↦ recover ts s'.queue >>= (λ q. done (record s' { queue = q }))
      ]

  unfoldable pub check_failures : Time → Scheduler S → Outcome (Scheduler S)
  unfolding mark_failed get_worker_metrics
  check_failures now s = do
    (m, s1) ← get_worker_metrics s
    let (r, s') = stored storage.get_all_nodes s1 in
        elim r [
          | err e ↦ done s'
          | ok nodes ↦ done (record s' {
            failure_detector = record s'.failure_detector {
              failed_nodes = mark_failed s'.node_id now nodes s'.failure_detector.failed_nodes;
            };
          })
        ]

  -- the loop of reassignFailedTasks
  unfoldable pub reassign : List Task → PriorityQueue → S → Outcome (PriorityQueue × S)
  unfolding reset
  reassign [] q w = done (q, w)
  reassign (t ∷ ts) q w =
      let (r, w') = storage.update_task (reset t) w in
      elim r [ err e ↦ reassign ts q w' | ok _ ↦ add q (reset t) >>= (λ q'. reassign ts q' w') ]

  unfoldable pub reassign_failed_tasks : Scheduler S → Outcome (Scheduler S)
  unfolding reassign
  reassign_failed_tasks s =
      if not s.is_leader
      then done s
      else let (r, s') = stored (storage.get_tasks_by_status status_failed) s in
        elim r [
          | err e ↦ done s'
          | ok ts ↦
              reassign ts s'.queue s'.world >>= λ (q, w). done (record s' { queue = q; world = w })
        ]
