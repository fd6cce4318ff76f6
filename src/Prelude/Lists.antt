-- ===== src/Prelude/Lists.antt =====
-- Lists measured and indexed by native numbers, under the library's names.
use Prim.Native.Nat.{ℕ, zero, suc, ◌+◌, ◌<◌}
use mathlib.Core.Path.{◌≡◌, refl, ap, ap₂}
use mathlib.Core.Bool.{Bool}
use mathlib.Core.List.{List, [], ◌∷◌, ◌++◌, map}
use mathlib.Core.Option.{Option, none, some}
use native.Mathlib.Omega.{arith}
use distributed_grpc_task_ma.Prelude.Tests.{◌==◌, if◌then◌else◌}

module _ {ℓ} {A : Type ℓ} where
  abbrev pub length : List A → ℕ
  length [] = 0
  length (_ ∷ xs) = suc (length xs)

  abbrev pub get_elem? : List A → ℕ → Option A
  get_elem? [] i = none
  get_elem? (x ∷ xs) zero = some x
  get_elem? (x ∷ xs) (suc i) = get_elem? xs i

  abbrev pub get_or : List A → ℕ → A → A
  get_or [] i d = d
  get_or (x ∷ xs) zero d = x
  get_or (x ∷ xs) (suc i) d = get_or xs i d

  -- A write out of bounds changes nothing.
  abbrev pub set : List A → ℕ → A → List A
  set [] i v = []
  set (x ∷ xs) zero v = v ∷ xs
  set (x ∷ xs) (suc i) v = x ∷ set xs i v

  abbrev pub take : ℕ → List A → List A
  take zero xs = []
  take (suc n) [] = []
  take (suc n) (x ∷ xs) = x ∷ take n xs

  -- The elements that pass a test, in order: Go's `for` with `if` and `append`.
  abbrev pub select : (A → Bool) → List A → List A
  select p [] = []
  select p (x ∷ xs) = let rest = select p xs in if p x then x ∷ rest else rest

  pub length-append : (xs ys : List A) → length (xs ++ ys) ≡ length xs + length ys
  length-append [] ys = omega arith
  length-append (x ∷ xs) ys = omega (arith, length-append xs ys)

  pub length-set : (xs : List A) (i : ℕ) (v : A) → length (set xs i v) ≡ length xs
  length-set [] i v = refl
  length-set (x ∷ xs) zero v = refl
  length-set (x ∷ xs) (suc i) v = ap suc (length-set xs i v)

  pub get_elem?-get_or :
      (xs : List A) (i : ℕ) (d : A) → i < length xs → get_elem? xs i ≡ some (get_or xs i d)
  get_elem?-get_or [] i d h = absurd (omega arith)
  get_elem?-get_or (x ∷ xs) zero d h = refl
  get_elem?-get_or (x ∷ xs) (suc i) d h = get_elem?-get_or xs i d (omega arith)

  pub get_or-set :
      (xs : List A) (i j : ℕ) (v d : A)
      → i < length xs
      → get_or (set xs i v) j d ≡ (if i == j then v else get_or xs j d)
  get_or-set [] i j v d h = absurd (omega arith)
  get_or-set (x ∷ xs) zero zero v d h = refl
  get_or-set (x ∷ xs) (suc i) (suc j) v d h = ground (arith, get_or-set xs i j v d)
  get_or-set (x ∷ xs) i j v d h = ground arith

  pub get_or-append :
      (xs ys : List A) (i : ℕ) (d : A) → i < length xs → get_or (xs ++ ys) i d ≡ get_or xs i d
  get_or-append [] ys i d h = absurd (omega arith)
  get_or-append (x ∷ xs) ys zero d h = refl
  get_or-append (x ∷ xs) ys (suc i) d h = get_or-append xs ys i d (omega arith)

  pub get_or-append_last :
      (xs : List A) (y : A) (i : ℕ) (d : A) → i ≡ length xs → get_or (xs ++ y ∷ []) i d ≡ y
  get_or-append_last [] y zero d h = refl
  get_or-append_last [] y (suc i) d h = absurd (omega arith)
  get_or-append_last (x ∷ xs) y zero d h = absurd (omega arith)
  get_or-append_last (x ∷ xs) y (suc i) d h = get_or-append_last xs y i d (omega arith)

  pub get_or-take :
      (n : ℕ) (xs : List A) (i : ℕ) (d : A) → i < n → get_or (take n xs) i d ≡ get_or xs i d
  get_or-take zero xs i d h = absurd (omega arith)
  get_or-take (suc n) [] i d h = refl
  get_or-take (suc n) (x ∷ xs) zero d h = refl
  get_or-take (suc n) (x ∷ xs) (suc i) d h = get_or-take n xs i d (omega arith)

  pub length-take : (n : ℕ) (xs : List A) → n < suc (length xs) → length (take n xs) ≡ n
  length-take zero xs h = refl
  length-take (suc n) [] h = absurd (omega arith)
  length-take (suc n) (x ∷ xs) h = ap suc (length-take n xs (omega arith))

  pub take-append-get_or :
      (n : ℕ) (xs : List A) (d : A) → length xs ≡ suc n → take n xs ++ get_or xs n d ∷ [] ≡ xs
  take-append-get_or zero (x ∷ []) d h = refl
  take-append-get_or (suc n) (x ∷ xs) d h = ap (◌∷◌ x) (take-append-get_or n xs d (omega arith))
  take-append-get_or n xs d h = absurd (omega arith)

-- Two functions that agree on the elements of a list map it alike.
pub map-agree {ℓ κ} :
    {A : Type ℓ} {B : Type κ} (xs : List A) (f g : A → B) (d : A)
    → ((i : ℕ) → i < length xs → f (get_or xs i d) ≡ g (get_or xs i d))
    → map f xs ≡ map g xs
map-agree [] f g d h = refl
map-agree (x ∷ xs) f g d h =
    ap₂ ◌∷◌ (h 0 (omega arith)) (map-agree xs f g d λ i p. h (suc i) (omega arith))
