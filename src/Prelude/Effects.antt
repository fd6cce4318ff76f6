-- ===== src/Prelude/Effects.antt =====
-- Go calls that return a value and an `error`, and that change a state.
use Prim.Native.String.{String, ◌++◌}
use mathlib.Core.Path.{◌≡◌, refl}
use mathlib.Core.Logic.{◌⊎◌, inl, inr}

-- `errors.New`, and `fmt.Errorf` with a text before `%w`
pub data Error : Type 0 where
  new : String → Error
  wrap : String → Error → Error

pub data Result {ℓ} (A : Type ℓ) : Type ℓ where
  ok : A → Result A
  err : Error → Result A

-- the calls of an object with state `S`
abbrev pub M : Type 0 → Type 0 → Type 0
M S A = S → Result A × S

abbrev pub pure : {S A : Type 0} → A → M S A
pure a s = (ok a, s)

abbrev pub fail : {S A : Type 0} → Error → M S A
fail e s = (err e, s)

abbrev pub follow : {S A B : Type 0} → Result A × S → (A → M S B) → Result B × S
follow (ok a, s) f = f a s
follow (err e, s) f = (err e, s)

infixl 5 ◌>>=◌ ◌>>◌
abbrev pub ◌>>=◌ : {S A B : Type 0} → M S A → (A → M S B) → M S B
◌>>=◌ m f s = follow (m s) f

abbrev pub ◌>>◌ : {S B : Type 0} → M S (Unit {0}) → M S B → M S B
m >> k = m >>= λ _. k

abbrev pub relabel : {A : Type 0} → String → Result A → Result A
relabel text (ok a) = ok a
relabel text (err e) = err (wrap text e)

-- `if err != nil { return fmt.Errorf("text: %w", err) }`
abbrev pub wrapped : {S A : Type 0} → String → M S A → M S A
wrapped text m s = let (r, s') = m s in (relabel text r, s')

-- a call without state
abbrev pub lift : {S A : Type 0} → Result A → M S A
lift r s = (r, s)

-- the call succeeds, with a result and a state that satisfy `P`
pub data Answers {S A : Type 0} (P : A → S → Type 0) : Result A × S → Type 0 where
  answers : {a : A} {s : S} → P a s → Answers P (ok a, s)

pub Answers-follow :
    {S A B : Type 0} {P : A → S → Type 0} {Q : B → S → Type 0} {r : Result A × S} {f : A → M S B}
    → Answers P r
    → ((a : A) (s : S) → P a s → Answers Q (f a s))
    → Answers Q (follow r f)
Answers-follow (answers p) k = k _ _ p

pub Answers-wrapped :
    {S A : Type 0} {P : A → S → Type 0} {r : Result A × S} (text : String)
    → Answers P r
    → Answers P (relabel text r.0, r.1)
Answers-wrapped text (answers p) = answers p

pub Answers-weaken :
    {S A : Type 0} {P Q : A → S → Type 0} {r : Result A × S}
    → Answers P r
    → ((a : A) (s : S) → P a s → Q a s)
    → Answers Q r
Answers-weaken (answers p) k = answers (k _ _ p)

pub Answers-result :
    {S A : Type 0} {P : A → S → Type 0} {r : Result A × S}
    → Answers P r
    → (a : A) × (s : S) × (r ≡ (ok a, s)) × P a s
Answers-result (answers p) = (_, _, refl, p)

-- `err.Error()`
unfoldable pub error_text : Error → String
error_text (new text) = text
error_text (wrap text e) = text ++ ": " ++ error_text e

pub Result-cases {ℓ} :
    {A : Type ℓ} (r : Result A) → ((a : A) × (r ≡ ok a)) ⊎ ((e : Error) × (r ≡ err e))
Result-cases (ok a) = inl (a, refl)
Result-cases (err e) = inr (e, refl)
