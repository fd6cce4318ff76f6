-- ===== src/Scheduler/Crew.antt =====
-- internal/worker/worker_pool.go: the goroutines of a pool, which take their turns at the one queue in any
-- order, and Stop, which waits for them.
use distributed_grpc_task_ma.Prelude.{
  ℕ, String, Bool, true, false, ◌&&◌, List, [], ◌∷◌, Option, none, some, get_elem?, set, map,
  if◌then◌else◌,
}
use distributed_grpc_task_ma.Prelude.Outcome.{Outcome, done, panics, hangs, out_of_fuel}
use distributed_grpc_task_ma.Types.{Time}
use distributed_grpc_task_ma.Queue.{PriorityQueue, locked}
use distributed_grpc_task_ma.Worker.{
  TaskProcessor, TaskStorage, Worker, WorkerMetrics, WorkerPool, Site, turn,
}
use distributed_grpc_task_ma.Scheduler.{task_queue}

-- a goroutine in its loop, one that has returned, and one that waits for ever in a call
pub data Activity : Type 0 where
  running stopped stuck : Activity

pub record Member : Type 0 where
  pub worker : Worker
  pub activity : Activity

-- `cancelled` is the state of the context of the pool
pub record Crew (S : Type 0) : Type 0 where
  pub members : List Member
  pub metrics : WorkerMetrics
  pub world : S
  pub queue : PriorityQueue
  pub cancelled : Bool

-- the goroutines that Start of the pool starts, over a world and a queue
abbrev pub crew_of : {S : Type 0} → WorkerPool → S → PriorityQueue → Crew S
crew_of p s q = record {
  members = map (λ w. record { worker = w; activity = running }) p.workers;
  metrics = p.metrics;
  world = s;
  queue = q;
  cancelled = false;
}

-- the member with the index takes one turn of its loop, with these readings of the clock
pub record Turn : Type 0 where
  pub index : ℕ
  pub started : Time
  pub finished : Time

unfoldable pub all_stopped : List Member → Bool
all_stopped [] = true
all_stopped (m ∷ ms) =
    (elim m.activity [ running ↦ false | stopped ↦ true | stuck ↦ false ]) && all_stopped ms

module _ {S : Type 0} where
  -- A call that never returns is one of Remove, which has taken the lock of the queue by then. A member
  -- in whose call the code panics, which would end the process, is taken for one that waits.
  unfoldable pub returned : ℕ → Member → Outcome (Bool × Site S × PriorityQueue) → Crew S → Crew S
  returned i m (done (goes_on, site, q)) c = record c {
    members =
        set c.members i
          (record { worker = site.worker; activity = if goes_on then running else stopped });
    metrics = site.metrics;
    world = site.world;
    queue = q;
  }
  returned i m hangs c = record c {
    members = set c.members i (record m { activity = stuck });
    queue = record c.queue { mu = locked };
  }
  returned i m panics c = record c { members = set c.members i (record m { activity = stuck }) }
  returned i m out_of_fuel c = record c {
    members = set c.members i (record m { activity = stuck });
  }

  module _ (decimal : ℕ → String) (processor : TaskProcessor S) (storage : TaskStorage S) where
    unfoldable pub take_turn : Turn → Crew S → Crew S
    unfolding turn returned
    take_turn t c = elim (get_elem? c.members t.index) [
      | none ↦ c
      | some m ↦ elim m.activity [
        | running ↦
            returned t.index m
              (turn decimal processor storage task_queue c.cancelled t.started t.finished
                (record { worker = m.worker; metrics = c.metrics; world = c.world }) c.queue)
              c
        | stopped ↦ c
        | stuck ↦ c
      ]
    ]

    unfoldable pub take_turns : List Turn → Crew S → Crew S
    unfolding take_turn
    take_turns [] c = c
    take_turns (t ∷ ts) c = take_turns ts (take_turn t c)

    -- Stop of the pool, while the workers take the turns: it returns if all of them have returned by then,
    -- and is `none` if it still waits
    unfoldable pub stop_pool : List Turn → Crew S → Option (Crew S)
    unfolding take_turns all_stopped
    stop_pool ts c =
        let c' = take_turns ts (record c { cancelled = true }) in
        if all_stopped c'.members then some c' else none
