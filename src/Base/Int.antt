-- ===== src/Base/Int.antt =====
-- Signed integers over the native numbers, and the range of a 32-bit `int`.
use up2date_cpp.Base.{ℕ, suc, ◌+◌, ◌-◌, ◌*◌, ◌<◌, ◌^◌, ◌≡◌, Bool, arith, ltb, leb, if◌then◌else◌}

-- `negsuc n` is -(n + 1).
pub data ℤ : Type 0 where
  pos : ℕ → ℤ
  negsuc : ℕ → ℤ

abbrev pub pos_part : ℤ → ℕ
pos_part (pos n) = n
pos_part (negsuc n) = 0

abbrev pub neg_part : ℤ → ℕ
neg_part (pos n) = 0
neg_part (negsuc n) = suc n

-- a - b, as an integer.
abbrev pub sub_ℕ : ℕ → ℕ → ℤ
sub_ℕ a b = if leb b a then pos (a - b) else negsuc (b - a - 1)

infixl 65 ◌+ℤ◌
unfoldable pub ◌+ℤ◌ : ℤ → ℤ → ℤ
a +ℤ b = sub_ℕ (pos_part a + pos_part b) (neg_part a + neg_part b)

-- A multiple by a non-negative factor.
unfoldable pub times : ℤ → ℕ → ℤ
times a k = sub_ℕ (pos_part a * k) (neg_part a * k)

-- -n
abbrev pub negated : ℕ → ℤ
negated n = sub_ℕ 0 n

abbrev pub is_positive : ℤ → Bool
is_positive a = ltb 0 (pos_part a)

-- The values of a 32-bit `int`.
abbrev pub int_limit : ℕ
int_limit = 2 ^ 31

abbrev pub fits_int : ℤ → Bool
fits_int (pos n) = ltb n int_limit
fits_int (negsuc n) = ltb n int_limit

pub fits_int_of_lt : (n : ℕ) → n < int_limit → fits_int (pos n) ≡ Bool.true
fits_int_of_lt n h = ground arith

pub pos-add : (a b : ℕ) → pos a +ℤ pos b ≡ pos (a + b)
unfolding ◌+ℤ◌
pos-add a b = ground arith

pub times-pos : (a k : ℕ) → times (pos a) k ≡ pos (a * k)
unfolding times
times-pos a k = ground arith
