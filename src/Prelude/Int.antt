-- ===== src/Prelude/Int.antt =====
-- The integers over the native numbers, and the bounds of `i64`.
use Prim.Native.Nat.{ℕ, zero, suc, ◌+◌, ◌-◌, ◌%◌, ◌^◌}
use mathlib.Core.Bool.{Bool, true, false}
use arxia.Prelude.Tests.{leb, if◌then◌else◌}

pub data ℤ : Type 0 where
  pos negsuc : ℕ → ℤ

unfoldable pub neg : ℕ → ℤ
neg zero = pos zero
neg (suc n) = negsuc n

-- `2^63 - 1` and `-2^63`
abbrev pub i64_max : ℕ
i64_max = 9223372036854775807

abbrev pub i64_min : ℤ
i64_min = negsuc 9223372036854775807

-- The difference of two numbers.
unfoldable pub diff : ℕ → ℕ → ℤ
diff a b = if leb b a then pos (a - b) else neg (b - a)

abbrev pub is_negative : ℤ → Bool
is_negative (pos n) = false
is_negative (negsuc n) = true

abbrev pos_part : ℤ → ℕ
pos_part (pos n) = n
pos_part (negsuc n) = 0

abbrev neg_part : ℤ → ℕ
neg_part (pos n) = 0
neg_part (negsuc n) = suc n

infixl 65 ◌+ℤ◌ ◌-ℤ◌
unfoldable pub ◌+ℤ◌ : ℤ → ℤ → ℤ
unfolding diff
a +ℤ b = diff (pos_part a + pos_part b) (neg_part a + neg_part b)

unfoldable pub ◌-ℤ◌ : ℤ → ℤ → ℤ
unfolding diff
a -ℤ b = diff (pos_part a + neg_part b) (neg_part a + pos_part b)

-- The 64-bit pattern `n`, read as a signed number.
of_bits : ℕ → ℤ
of_bits n = if leb n i64_max then pos n else diff n (2 ^ 64)

-- An `i64` sum or difference of the release build.
unfoldable pub wrap_i64 : ℤ → ℤ
unfolding of_bits
wrap_i64 (pos n) = of_bits (n % 2 ^ 64)
wrap_i64 (negsuc n) = of_bits (2 ^ 64 - 1 - n % 2 ^ 64)

-- `saturating_add` and `saturating_sub` of `i64` end with this.
abbrev pub saturate_i64 : ℤ → ℤ
saturate_i64 (pos n) = if leb n i64_max then pos n else pos i64_max
saturate_i64 (negsuc n) = if leb n i64_max then negsuc n else i64_min
