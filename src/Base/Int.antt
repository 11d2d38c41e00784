-- ===== src/Base/Int.antt =====
-- Signed integers over the native numbers, with the range of a C `int`.
use Prim.Native.Nat.{ℕ, zero, suc, ◌+◌, ◌-◌}
use mathlib.Core.Bool.{Bool, true, false}
use erlfdb.Base.Tests.{leb, if◌then◌else◌}

-- `negsuc n` is -(n + 1).
pub data ℤ : Type 0 where
  pos : ℕ → ℤ
  negsuc : ℕ → ℤ

abbrev pub pos_part : ℤ → ℕ
pos_part (pos n) = n
pos_part (negsuc n) = 0

abbrev pub neg_part : ℤ → ℕ
neg_part (pos n) = 0
neg_part (negsuc n) = suc n

-- a - b, as an integer.
abbrev pub sub_ℕ : ℕ → ℕ → ℤ
sub_ℕ a b = if leb b a then pos (a - b) else negsuc (b - a - 1)

infixl 65 ◌+ℤ◌
unfoldable pub ◌+ℤ◌ : ℤ → ℤ → ℤ
a +ℤ b = sub_ℕ (pos_part a + pos_part b) (neg_part a + neg_part b)

abbrev pub is_zero : ℤ → Bool
is_zero (pos zero) = true
is_zero _ = false

-- The largest 32-bit `int`, and the test that an integer is one.
abbrev pub int_max : ℕ
int_max = 2147483647

abbrev pub fits_int : ℤ → Bool
fits_int (pos n) = leb n int_max
fits_int (negsuc n) = leb n int_max

abbrev pub int64_max : ℕ
int64_max = 9223372036854775807

abbrev pub fits_int64 : ℤ → Bool
fits_int64 (pos n) = leb n int64_max
fits_int64 (negsuc n) = leb n int64_max
