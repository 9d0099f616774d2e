-- ===== src/Common/Int.antt =====
-- The signed integers that Go's `int` holds, without its 64-bit bound.
use Prim.Native.Nat.{ℕ, suc, ◌+◌}
use mathlib.Core.Path.{◌≡◌}
use mathlib.Core.Bool.{Bool, true, false}
use native.Mathlib.Omega.{arith}
use job_manager_quorum.Common.Tests.{ltb}

-- `negsuc n` is -(n + 1).
pub data ℤ : Type 0 where
  pos : ℕ → ℤ
  negsuc : ℕ → ℤ

abbrev pub pos_part : ℤ → ℕ
pos_part (pos n) = n
pos_part (negsuc n) = 0

abbrev pub neg_part : ℤ → ℕ
neg_part (pos n) = 0
neg_part (negsuc n) = suc n

-- `a < b`
abbrev pub ltℤ : ℤ → ℤ → Bool
ltℤ a b = ltb (pos_part a + neg_part b) (pos_part b + neg_part a)

pub ltℤ_irrefl : (a : ℤ) → ltℤ a a ≡ false
ltℤ_irrefl a = ground arith

pub ltℤ_asymm : (a b : ℤ) → ltℤ a b ≡ true → ltℤ b a ≡ false
ltℤ_asymm a b h = ground arith

-- not (b < a) and not (c < b) give not (c < a)
pub ltℤ_trans : (a b c : ℤ) → ltℤ b a ≡ false → ltℤ c b ≡ false → ltℤ c a ≡ false
ltℤ_trans a b c h k = ground arith
