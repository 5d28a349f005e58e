-- ===== src/Text/Scan.antt =====
-- Decimal numbers in text: `std::to_string(int)`, the number that `strtol` and `%d` read, and
-- `sscanf(s, "%d:%d:%d", …)`. That a number that is printed is read back.
use up2date_cpp.Base.{
  ℕ, suc, zero, ◌+◌, ◌-◌, ◌*◌, ◌/◌, ◌%◌, ◌<◌, ◌≡◌, refl, Bool, true, false, ◌&&◌, ◌||◌, [], ◌∷◌,
  Option, none, some, arith, ltb, leb, ◌==◌, if◌then◌else◌, ap, ◌∙◌,
}
use up2date_cpp.Base.Int.{ℤ, pos, negsuc, negated}
use up2date_cpp.Text.{Text}

-- `isspace` in the C locale.
abbrev pub is_space : ℕ → Bool
is_space c = c == 32 || (leb 9 c && leb c 13)

abbrev pub is_digit : ℕ → Bool
is_digit c = leb 48 c && leb c 57

unfoldable pub skip_spaces : Text → Text
skip_spaces [] = []
skip_spaces (c ∷ s) = let rest = skip_spaces s in if is_space c then rest else c ∷ s

-- The digits at the front, added to the number read so far, and what follows them.
unfoldable pub read_digits : ℕ → Text → ℕ × Text
read_digits n [] = (n, [])
read_digits n (c ∷ s) =
    let rest = read_digits (n * 10 + (c - 48)) s in if is_digit c then rest else (n, c ∷ s)

-- At least one digit must stand at the front.
unfoldable pub read_number : Text → Option (ℕ × Text)
unfolding read_digits
read_number [] = none
read_number (c ∷ s) = if is_digit c then some (read_digits 0 (c ∷ s)) else none

abbrev signed : (ℕ → ℤ) → Option (ℕ × Text) → Option (ℤ × Text)
signed f none = none
signed f (some (n, s)) = some (f n, s)

read_sign : Text → Option (ℤ × Text)
unfolding read_number
read_sign [] = none
read_sign (c ∷ s) =
    if c == b'-'
    then signed negated (read_number s)
    else if c == b'+'
    then signed pos (read_number s)
    else signed pos (read_number (c ∷ s))

-- White space, a sign, digits: what `%d` and `strtol(…, 10)` accept, before any range check.
unfoldable pub scan_int : Text → Option (ℤ × Text)
unfolding skip_spaces read_sign
scan_int s = read_sign (skip_spaces s)

-- A `:` of the format.
abbrev pub scan_colon : Text → Option Text
scan_colon [] = none
scan_colon (c ∷ s) = if c == b':' then some s else none

infixl 5 ◌>>=◌
abbrev ◌>>=◌ : {A B : Type 0} → Option A → (A → Option B) → Option B
none >>= f = none
some a >>= f = f a

-- The numbers that `sscanf(s, "%d:%d:%d", …)` stores when it returns 3.
unfoldable pub scan_time : Text → Option (ℤ × ℤ × ℤ)
unfolding scan_int
scan_time s = do
  (hh, s₁) ← scan_int s
  s₂ ← scan_colon s₁
  (mm, s₃) ← scan_int s₂
  s₄ ← scan_colon s₃
  (ss, rest) ← scan_int s₄
  some (hh, mm, ss)

-- The digits of `n` in front of `rest`.
unfoldable pub digits_onto : ℕ → ℕ → Text → Text
digits_onto zero n rest = rest
digits_onto (suc fuel) n rest =
    let more = digits_onto fuel (n / 10) ((48 + n % 10) ∷ rest) in
    if ltb n 10 then (48 + n) ∷ rest else more

abbrev pub show_onto : ℕ → Text → Text
show_onto n rest = digits_onto (suc n) n rest

-- `std::to_string` of an `int`.
unfoldable pub to_string : ℤ → Text
unfolding digits_onto
to_string (pos n) = show_onto n []
to_string (negsuc n) = b'-' ∷ show_onto (suc n) []

-- Reading printed digits leaves the number, and what follows is read on.
pub read_digits-digits_onto :
    (fuel n : ℕ) (rest : Text)
    → n < fuel
    → read_digits 0 (digits_onto fuel n rest) ≡ read_digits n rest
unfolding read_digits digits_onto
read_digits-digits_onto zero n rest h = elim h [ ]
read_digits-digits_onto (suc fuel) n rest h =
    ground (arith, read_digits-digits_onto fuel (n / 10) ((48 + n % 10) ∷ rest))

-- The first byte of printed digits is a digit.
abbrev StartsWithDigit : Text → Type 0
StartsWithDigit [] = ⊥
StartsWithDigit (c ∷ s) = is_digit c ≡ true

digits_onto-StartsWithDigit :
    (fuel n : ℕ) (rest : Text) → n < fuel → StartsWithDigit (digits_onto fuel n rest)
unfolding digits_onto
digits_onto-StartsWithDigit zero n rest h = elim h [ ]
digits_onto-StartsWithDigit (suc fuel) n rest h =
    ground (arith, digits_onto-StartsWithDigit fuel (n / 10) ((48 + n % 10) ∷ rest))

-- What follows a printed number does not go on with a digit.
abbrev pub EndsNumber : Text → Type 0
EndsNumber [] = Unit
EndsNumber (c ∷ s) = is_digit c ≡ false

read_digits-EndsNumber : (n : ℕ) (rest : Text) → EndsNumber rest → read_digits n rest ≡ (n, rest)
unfolding read_digits
read_digits-EndsNumber n [] h = refl
read_digits-EndsNumber n (c ∷ rest) h = ground arith

scan_int_digit : (s : Text) → StartsWithDigit s → scan_int s ≡ signed pos (some (read_digits 0 s))
unfolding scan_int read_number
scan_int_digit [] h = elim h [ ]
scan_int_digit (c ∷ s) h = ground arith

-- A printed number is read back, with what follows it left over.
pub scan_int-show_onto :
    (n : ℕ) (rest : Text) → EndsNumber rest → scan_int (show_onto n rest) ≡ some (pos n, rest)
scan_int-show_onto n rest h =
    scan_int_digit (show_onto n rest) (digits_onto-StartsWithDigit (suc n) n rest (omega arith))
    ∙ ap (λ r. signed pos (some r))
        (read_digits-digits_onto (suc n) n rest (omega arith) ∙ read_digits-EndsNumber n rest h)
