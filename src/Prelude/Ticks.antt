-- ===== src/Prelude/Ticks.antt =====
-- `for { select { case <-ctx.Done(): return; case <-ticker.C: step() } }`, over what the select takes,
-- which ends with the end of the list if the context is not done by then.
use distributed_grpc_task_ma.Prelude.Outcome.{Outcome, done, ◌>>=◌, Yields, yields, Yields-bind}
use Prim.Native.Nat.{ℕ}
use mathlib.Core.List.{List, [], ◌∷◌}

-- a tick at an instant, or the end of the context
pub data Event : Type 0 where
  tick : ℕ → Event
  cancelled : Event

unfoldable pub ticking : {S : Type 0} → (ℕ → S → Outcome S) → List Event → S → Outcome S
ticking step [] s = done s
ticking step (cancelled ∷ rest) s = done s
ticking step (tick now ∷ rest) s = step now s >>= λ s'. ticking step rest s'

module _ {S : Type 0} (step : ℕ → S → Outcome S) (I : S → Type 0) where
  -- a loop whose steps return and keep `I` returns and keeps `I`
  pub ticking-Yields :
      ((now : ℕ) (s : S) → I s → Yields I (step now s))
      → (events : List Event) (s : S) → I s
      → Yields I (ticking step events s)
  unfolding ticking
  ticking-Yields k [] s i = yields i
  ticking-Yields k (cancelled ∷ rest) s i = yields i
  ticking-Yields k (tick now ∷ rest) s i =
      Yields-bind (k now s i) λ s' i'. ticking-Yields k rest s' i'
