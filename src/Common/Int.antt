-- ===== src/Common/Int.antt =====
-- Integers over the native numbers, and the floats that stand for money.
use Prim.Native.Nat.{ℕ}

-- `negsuc n` is -(n + 1).
pub data ℤ : Type 0 where
  pos : ℕ → ℤ
  negsuc : ℕ → ℤ

-- A Python float that stands for money: a whole number of 10^-10 dollars, or no number.
pub data Amount : Type 0 where
  finite : ℤ → Amount
  infinite nan : Amount
