-- ===== src/Worker/Rounds.antt =====
-- internal/worker/worker_pool.go: the loop of a worker.
use distributed_grpc_task_ma.Prelude.{ℕ, String, Bool, true, false, List, [], ◌∷◌}
use distributed_grpc_task_ma.Prelude.Outcome.{Outcome, done, ◌>>=◌}
use distributed_grpc_task_ma.Types.{Time}
use distributed_grpc_task_ma.Worker.{TaskProcessor, TaskStorage, TaskQueue, Site, turn}

-- what the select finds in one round of the loop, and the readings of the clock
pub record Round : Type 0 where
  pub cancelled : Bool
  pub started : Time
  pub finished : Time

module _ {S Q : Type 0} (decimal : ℕ → String) (processor : TaskProcessor S)
    (storage : TaskStorage S) (queue : TaskQueue Q) where
  -- Start of a worker, for as many rounds
  unfoldable pub run : List Round → Site S → Q → Outcome (Site S × Q)
  unfolding turn
  run [] site q = done (site, q)
  run (r ∷ rest) site q =
      turn decimal processor storage queue r.cancelled r.started r.finished site q
      >>= λ (goes_on, site', q'). elim goes_on [
        | true ↦ run rest site' q'
        | false ↦ done (site', q')
      ]
