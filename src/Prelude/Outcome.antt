-- ===== src/Prelude/Outcome.antt =====
-- How a call ends: it returns, panics, waits for ever on a lock that its own goroutine holds, or
-- (in the model only) the fuel of a loop runs out.
use mathlib.Core.Path.{◌≡◌, refl, ap}
use mathlib.Core.Logic.{◌≢◌}
use mathlib.Core.Bool.{Bool, true, false}
use native.Mathlib.Omega.{arith}
use mathlib.Core.Option.{Option, none, some}
use distributed_grpc_task_ma.Prelude.Tests.{if◌then◌else◌}

pub data Outcome {ℓ} (A : Type ℓ) : Type ℓ where
  done : A → Outcome A
  panics hangs out_of_fuel : Outcome A

infixl 5 ◌>>=◌
abbrev pub ◌>>=◌ {ℓ κ} : {A : Type ℓ} {B : Type κ} → Outcome A → (A → Outcome B) → Outcome B
done a >>= f = f a
panics >>= f = panics
hangs >>= f = hangs
out_of_fuel >>= f = out_of_fuel

-- an index or a pointer that must be there
abbrev pub or_panic {ℓ} : {A : Type ℓ} → Option A → Outcome A
or_panic (some a) = done a
or_panic none = panics

-- the call returns, with a result that satisfies `P`
pub data Yields {ℓ κ} {A : Type ℓ} (P : A → Type κ) : Outcome A → Type (ℓ ⊔ κ) where
  yields : {a : A} → P a → Yields P (done a)

module _ {ℓ κ} {A : Type ℓ} {P : A → Type κ} where
  pub Yields-bind {ℓ' κ'} :
      {B : Type ℓ'} {Q : B → Type κ'} {r : Outcome A} {f : A → Outcome B}
      → Yields P r
      → ((a : A) → P a → Yields Q (f a))
      → Yields Q (r >>= f)
  Yields-bind (yields p) k = k _ p

  pub Yields-weaken {κ'} :
      {Q : A → Type κ'} {r : Outcome A} → Yields P r → ((a : A) → P a → Q a) → Yields Q r
  Yields-weaken (yields p) k = yields (k _ p)

  pub Yields-if :
      {x y : Outcome A} (b : Bool)
      → (b ≡ true → Yields P x)
      → (b ≡ false → Yields P y)
      → Yields P (if b then x else y)
  Yields-if true p q = p refl
  Yields-if false p q = q refl

  pub Yields-value : {r : Outcome A} → Yields P r → (a : A) × (r ≡ done a) × P a
  Yields-value (yields p) = (_, refl, p)

abbrev done_or {ℓ} : {A : Type ℓ} → A → Outcome A → A
done_or a (done b) = b
done_or a panics = a
done_or a hangs = a
done_or a out_of_fuel = a

-- the result, if the call returns, satisfies `P`
pub record WhenDone {ℓ κ} {A : Type ℓ} (P : A → Type κ) (r : Outcome A) : Type (ℓ ⊔ κ) where
  pub result : (a : A) → r ≡ done a → P a

module _ {ℓ κ} {A : Type ℓ} {P : A → Type κ} where
  pub WhenDone-done : {a : A} → P a → WhenDone P (done a)
  WhenDone-done {a = a} p = record { result = λ b e. rw (ap (done_or a) e) at p }

  pub WhenDone-never : (r : Outcome A) → ((a : A) → r ≢ done a) → WhenDone P r
  WhenDone-never r n = record { result = λ a e. elim (n a e) [ ] }

  pub WhenDone-bind {ℓ'} :
      {B : Type ℓ'} (r : Outcome B) {f : B → Outcome A}
      → ((b : B) → r ≡ done b → WhenDone P (f b))
      → WhenDone P (r >>= f)
  WhenDone-bind (done b) k = k b refl
  WhenDone-bind panics k = WhenDone-never panics λ a e. ground arith
  WhenDone-bind hangs k = WhenDone-never hangs λ a e. ground arith
  WhenDone-bind out_of_fuel k = WhenDone-never out_of_fuel λ a e. ground arith

  pub WhenDone-if :
      {x y : Outcome A} (b : Bool) → WhenDone P x → WhenDone P y → WhenDone P (if b then x else y)
  WhenDone-if true p q = p
  WhenDone-if false p q = q

pub bind-bind {ℓ κ μ} :
    {A : Type ℓ} {B : Type κ} {C : Type μ} (r : Outcome A) (f : A → Outcome B) (g : B → Outcome C)
    (h : A → Outcome C)
    → ((a : A) → h a ≡ (f a >>= g))
    → (r >>= h) ≡ ((r >>= f) >>= g)
bind-bind (done a) f g h e = e a
bind-bind panics f g h e = refl
bind-bind hangs f g h e = refl
bind-bind out_of_fuel f g h e = refl
