-- ===== src/Prelude/Ints.antt =====
-- Go's signed `int` and `time.Duration`, as integers over the native numbers.
use Prim.Native.Nat.{ℕ, suc, ◌+◌, ◌-◌}
use mathlib.Core.Path.{◌≡◌}
use mathlib.Core.Logic.{◌↔◌}
use mathlib.Core.Bool.{Bool, true}
use native.Mathlib.Omega.{arith}
use distributed_grpc_task_ma.Prelude.Tests.{ltb, leb, ◌==◌, if◌then◌else◌}

-- `negsuc n` is -(n + 1).
pub data ℤ : Type 0 where
  pos : ℕ → ℤ
  negsuc : ℕ → ℤ

abbrev pub pos_part : ℤ → ℕ
pos_part (pos n) = n
pos_part (negsuc n) = 0

abbrev pub neg_part : ℤ → ℕ
neg_part (pos n) = 0
neg_part (negsuc n) = suc n

-- a - b, as an integer.
abbrev pub sub_ℕ : ℕ → ℕ → ℤ
sub_ℕ a b = if leb b a then pos (a - b) else negsuc (b - a - 1)

abbrev pub ltb_ℤ : ℤ → ℤ → Bool
ltb_ℤ a b = ltb (pos_part a + neg_part b) (pos_part b + neg_part a)

abbrev pub eqb_ℤ : ℤ → ℤ → Bool
eqb_ℤ a b = pos_part a + neg_part b == pos_part b + neg_part a

pub eqb_ℤ_iff : (a b : ℤ) → (eqb_ℤ a b ≡ true) ↔ (a ≡ b)
eqb_ℤ_iff (pos a) (pos b) = ground arith
eqb_ℤ_iff (negsuc a) (negsuc b) = ground arith
eqb_ℤ_iff _ _ = ground arith
