-- ===== src/Prelude/Int.antt =====
-- Signed integers over the native numbers, and Python's `%` on them.
use Prim.Native.Nat.{ℕ, suc, ◌+◌, ◌-◌, ◌%◌, ◌<◌}
use mathlib.Core.Bool.{Bool}
use native.Mathlib.Omega.{arith}
use visiontak_client.Prelude.Tests.{ltb, leb, if◌then◌else◌}

-- `negsuc n` is -(n + 1).
pub data ℤ : Type 0 where
  pos : ℕ → ℤ
  negsuc : ℕ → ℤ

abbrev pub pos_part : ℤ → ℕ
pos_part (pos n) = n
pos_part (negsuc n) = 0

abbrev pub neg_part : ℤ → ℕ
neg_part (pos n) = 0
neg_part (negsuc n) = suc n

abbrev pub sub_ℕ : ℕ → ℕ → ℤ
sub_ℕ a b = if leb b a then pos (a - b) else negsuc (b - a - 1)

infixl 65 ◌+ℤ◌
unfoldable pub ◌+ℤ◌ : ℤ → ℤ → ℤ
a +ℤ b = sub_ℕ (pos_part a + pos_part b) (neg_part a + neg_part b)

abbrev pub ltb_ℤ : ℤ → ℤ → Bool
ltb_ℤ a b = ltb (pos_part a + neg_part b) (pos_part b + neg_part a)

-- max(0, a)
abbrev pub max_zero : ℤ → ℕ
max_zero = pos_part

-- Python's a % n at n > 0: always in 0 .. n - 1.
abbrev pub mod_ℤ : ℤ → ℕ → ℕ
mod_ℤ (pos a) n = a % n
mod_ℤ (negsuc a) n = n - 1 - a % n

pub mod_ℤ-lt : (a : ℤ) (n : ℕ) → 0 < n → mod_ℤ a n < n
mod_ℤ-lt (pos a) n h = omega arith
mod_ℤ-lt (negsuc a) n h = omega arith
