-- ===== src/Prelude/Maps.antt =====
-- Go maps with string keys, as association lists; the order of a `range` over one is its list's.
use Prim.Native.String.{String}
use mathlib.Core.Path.{◌≡◌, refl}
use mathlib.Core.List.{List, [], ◌∷◌}
use mathlib.Core.Option.{Option, none, some}
use native.Mathlib.Omega.{arith}
use text.Mathlib.Text.{◌==◌ as str_eq}
use text.Mathlib.TextEquality.{eq_iff}
use distributed_grpc_task_ma.Prelude.Tests.{if◌then◌else◌}

abbrev pub StrMap {ℓ} : Type ℓ → Type ℓ
StrMap V = List (String × V)

module _ {ℓ} {V : Type ℓ} where
  -- `v, exists := m[k]`
  unfoldable pub find : String → StrMap V → Option V
  find k [] = none
  find k ((j, v) ∷ m) = if str_eq j k then some v else find k m

  -- `m[k] = v`
  unfoldable pub put : String → V → StrMap V → StrMap V
  put k v [] = (k, v) ∷ []
  put k v ((j, w) ∷ m) = if str_eq j k then (k, v) ∷ m else (j, w) ∷ put k v m

  -- `delete(m, k)`
  unfoldable pub remove : String → StrMap V → StrMap V
  remove k [] = []
  remove k ((j, v) ∷ m) = let rest = remove k m in if str_eq j k then rest else (j, v) ∷ rest

  -- a loop that changes each value in place
  unfoldable pub adjust : (V → V) → StrMap V → StrMap V
  adjust f [] = []
  adjust f ((j, v) ∷ m) = (j, f v) ∷ adjust f m

  pub find-put :
      (k j : String) (v : V) (m : StrMap V)
      → find j (put k v m) ≡ (if str_eq k j then some v else find j m)
  unfolding find put
  find-put k j v [] = refl
  find-put k j v ((i, w) ∷ m) = ground (arith, eq_iff k j, eq_iff i k, eq_iff i j, find-put k j v m)

  pub find-remove :
      (k j : String) (m : StrMap V) → find j (remove k m) ≡ (if str_eq k j then none else find j m)
  unfolding find remove
  find-remove k j [] = ground arith
  find-remove k j ((i, w) ∷ m) =
      ground (arith, eq_iff k j, eq_iff i k, eq_iff i j, find-remove k j m)

  pub find-adjust :
      (f : V → V) (k : String) (m : StrMap V)
      → find k (adjust f m) ≡ (elim (find k m) [ none ↦ none | some v ↦ some (f v) ])
  unfolding find adjust
  find-adjust f k [] = refl
  find-adjust f k ((i, w) ∷ m) = ground (arith, find-adjust f k m)

  -- the values, in the order of a `range`
  unfoldable pub values : StrMap V → List V
  values [] = []
  values ((j, v) ∷ m) = v ∷ values m
