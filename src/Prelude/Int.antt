-- ===== src/Prelude/Int.antt =====
-- Go's `int64` as an integer that wraps: `time.Duration` counts nanoseconds in one.
use Prim.Native.Nat.{ℕ, suc, ◌+◌, ◌-◌, ◌%◌, ◌≤◌, ◌<◌}
use mathlib.Core.Bool.{Bool}
use fork_kustomize_controlle.Prelude.Tests.{ltb, leb, if◌then◌else◌}

-- `negsuc n` is -(n + 1).
pub data ℤ : Type 0 where
  pos : ℕ → ℤ
  negsuc : ℕ → ℤ

abbrev pub pos_part : ℤ → ℕ
pos_part (pos n) = n
pos_part (negsuc n) = 0

abbrev pub neg_part : ℤ → ℕ
neg_part (pos n) = 0
neg_part (negsuc n) = suc n

-- a - b, as an integer.
abbrev pub sub_ℕ : ℕ → ℕ → ℤ
sub_ℕ a b = if leb b a then pos (a - b) else negsuc (b - a - 1)

infixl 65 ◌-ℤ◌
infix 50 ◌≤ℤ◌ ◌<ℤ◌
abbrev pub ◌-ℤ◌ : ℤ → ℤ → ℤ
a -ℤ b = sub_ℕ (pos_part a + neg_part b) (neg_part a + pos_part b)

abbrev pub ◌≤ℤ◌ : ℤ → ℤ → Type 0
a ≤ℤ b = pos_part a + neg_part b ≤ pos_part b + neg_part a

abbrev pub ◌<ℤ◌ : ℤ → ℤ → Type 0
a <ℤ b = pos_part a + neg_part b < pos_part b + neg_part a

abbrev pub ltb_ℤ : ℤ → ℤ → Bool
ltb_ℤ a b = ltb (pos_part a + neg_part b) (pos_part b + neg_part a)

-- The 64-bit pattern of an integer, and the signed value of a pattern.
abbrev pub to_bits : ℤ → ℕ
to_bits (pos n) = n % 18446744073709551616
to_bits (negsuc n) = 18446744073709551615 - n % 18446744073709551616

abbrev pub of_bits : ℕ → ℤ
of_bits n = if ltb n 9223372036854775808 then pos n else negsuc (18446744073709551615 - n)

-- `int64` subtraction wraps around.
abbrev pub sub_int64 : ℤ → ℤ → ℤ
sub_int64 a b = of_bits (to_bits (a -ℤ b))
