-- ===== src/Prelude/Perms.antt =====
-- Lists up to order: a write trades an element, and two writes can trade places.
use mathlib.Core.List.Perm
use native.Mathlib.Nat.{ℕ_set}
use mathlib.Core.Logic.{∥∥₁_elim}
use mathlib.Core.List.{Permᴰ}
use Prim.Native.Nat.{ℕ, zero, suc, ◌<◌}
use mathlib.Core.Path.{◌≡◌, refl, ap, ap₂, ◌∙◌}
use mathlib.Core.List.{List, [], ◌∷◌, ◌++◌, Perm, map}
use native.Mathlib.Omega.{arith}
use distributed_grpc_task_ma.Prelude.Lists.{length, get_or, set, length-set, get_or-set, map-agree}
use distributed_grpc_task_ma.Prelude.Tests.{◌==◌, if◌then◌else◌}

module _ {ℓ} {A : Type ℓ} where
  pub trade :
      (xs : List A) (i : ℕ) (v d : A) → i < length xs → Perm (get_or xs i d ∷ set xs i v) (v ∷ xs)
  trade [] i v d h = absurd (omega arith)
  trade (x ∷ xs) zero v d h = Perm.swap v x xs
  trade (x ∷ xs) (suc i) v d h =
      let rest = Perm.cons x (trade xs i v d (omega arith)) in
      Perm.trans (Perm.swap x (get_or xs i d) (set xs i v)) (Perm.trans rest (Perm.swap v x xs))

  pub exchange-perm :
      (xs : List A) (i j : ℕ) (d : A)
      → i < length xs
      → j < length xs
      → Perm (set (set xs i (get_or xs j d)) j (get_or xs i d)) xs
  exchange-perm xs i j d hi hj =
      let a = get_or xs i d in
      let b = get_or xs j d in
      let ys = set xs i b in
      let kept : get_or ys j d ≡ b = ground (arith, get_or-set xs i j b d) in
      let second = rw kept at (trade ys j a d (rw length-set hj)) in
      Perm.cons_inv (Perm.trans second (trade xs i b d hi))

  pub middle : (x : A) (xs ys : List A) → Perm (xs ++ x ∷ ys) (x ∷ xs ++ ys)
  middle x [] ys = Perm.refl (x ∷ ys)
  middle x (a ∷ xs) ys = Perm.trans (Perm.cons a (middle x xs ys)) (Perm.swap x a (xs ++ ys))

  same_length : {xs ys : List A} → Permᴰ xs ys → length xs ≡ length ys
  same_length Permᴰ.nil = refl
  same_length (Permᴰ.cons _ p) = ap suc (same_length p)
  same_length (Permᴰ.swap _ _) = refl
  same_length (Permᴰ.trans p q) = same_length p ∙ same_length q

  pub length-perm : {xs ys : List A} → Perm xs ys → length xs ≡ length ys
  length-perm p = ∥∥₁_elim p (ℕ_set _ _) same_length

-- Where the elements are distinct, to change a function at one of them is to write at its place.
pub map-set {κ} :
    {B : Type κ} (xs : List ℕ) (f : ℕ → B) (i : ℕ) (v : B)
    → i < length xs
    → ((j : ℕ) → j < length xs → get_or xs j 0 ≡ get_or xs i 0 → j ≡ i)
    → map (λ p. if get_or xs i 0 == p then v else f p) xs ≡ set (map f xs) i v
map-set [] f i v h distinct = absurd (omega arith)
map-set (x ∷ xs) f zero v h distinct =
    ap₂ ◌∷◌ (ground arith) (map-agree xs _ f 0 λ j hj. ground (arith, distinct (suc j)))
map-set (x ∷ xs) f (suc i) v h distinct =
    ap₂ ◌∷◌ (ground (arith, distinct 0))
      (map-set xs f i v (omega arith) λ j hj e. omega (arith, distinct (suc j) (omega arith) e))

pub length-map {ℓ κ} :
    {A : Type ℓ} {B : Type κ} (f : A → B) (xs : List A) → length (map f xs) ≡ length xs
length-map f [] = refl
length-map f (x ∷ xs) = ap suc (length-map f xs)

pub get_or-map {κ} :
    {B : Type κ} (f : ℕ → B) (xs : List ℕ) (i : ℕ) (d : B)
    → i < length xs
    → get_or (map f xs) i d ≡ f (get_or xs i 0)
get_or-map f [] i d h = absurd (omega arith)
get_or-map f (x ∷ xs) zero d h = refl
get_or-map f (x ∷ xs) (suc i) d h = get_or-map f xs i d (omega arith)
