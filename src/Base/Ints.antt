-- ===== src/Base/Ints.antt =====
-- Go's `int`, for the values that are read from configuration: an integer, with its order.
use Prim.Native.Nat.{ℕ, suc, ◌+◌}
use mathlib.Core.Bool.{Bool}
use podplane.Base.Tests.{ltb, ◌==◌}

-- `negsuc n` is -(n + 1).
pub data ℤ : Type 0 where
  pos : ℕ → ℤ
  negsuc : ℕ → ℤ

abbrev pub pos_part : ℤ → ℕ
pos_part (pos n) = n
pos_part (negsuc n) = 0

abbrev pub neg_part : ℤ → ℕ
neg_part (pos n) = 0
neg_part (negsuc n) = suc n

infix 50 ◌<ℤ◌ ◌=ℤ◌
abbrev pub ◌<ℤ◌ : ℤ → ℤ → Bool
a <ℤ b = ltb (pos_part a + neg_part b) (pos_part b + neg_part a)

abbrev pub ◌=ℤ◌ : ℤ → ℤ → Bool
a =ℤ b = pos_part a + neg_part b == pos_part b + neg_part a
