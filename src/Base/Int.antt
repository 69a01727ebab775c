-- ===== src/Base/Int.antt =====
-- Signed 64-bit numbers: Go's int, int64 and time.Duration, as integers, with the wrap-around of
-- the operations that can leave the range written out.
use Prim.Native.Nat.{ℕ, suc, ◌+◌, ◌-◌, ◌%◌, ◌≤◌, ◌<◌}
use mathlib.Core.Path.{◌≡◌}
use mathlib.Core.Bool.{Bool}
use native.Mathlib.Omega.{arith}
use vintagestory_go.Base.Tests.{ltb, leb, if◌then◌else◌}

-- `negsuc n` is -(n + 1).
pub data ℤ : Type 0 where
  pos : ℕ → ℤ
  negsuc : ℕ → ℤ

abbrev pub pos_part : ℤ → ℕ
pos_part (pos n) = n
pos_part (negsuc n) = 0

abbrev pub neg_part : ℤ → ℕ
neg_part (pos n) = 0
neg_part (negsuc n) = suc n

abbrev pub ltb_ℤ : ℤ → ℤ → Bool
ltb_ℤ a b = ltb (pos_part a + neg_part b) (pos_part b + neg_part a)

infix 50 ◌≤ℤ◌ ◌<ℤ◌
abbrev pub ◌≤ℤ◌ : ℤ → ℤ → Type 0
a ≤ℤ b = pos_part a + neg_part b ≤ pos_part b + neg_part a

abbrev pub ◌<ℤ◌ : ℤ → ℤ → Type 0
a <ℤ b = pos_part a + neg_part b < pos_part b + neg_part a

abbrev pub max_int64 : ℕ
max_int64 = 9223372036854775807

-- The int64 that the low 64 bits of a natural number stand for.
abbrev pub of_bits : ℕ → ℤ
of_bits m = if leb m max_int64 then pos m else negsuc (18446744073709551615 - m)

unfoldable pub wrap64 : ℕ → ℤ
wrap64 n = of_bits (n % 18446744073709551616)

pub wrap64-small : (n : ℕ) → n ≤ max_int64 → wrap64 n ≡ pos n
unfolding wrap64
wrap64-small n h = ground arith
