-- ===== src/Text.antt =====
-- `std::string` as a list of bytes: equality, order, the C view of a string, and literals.
pub mod Scan
pub mod Printed
pub mod Order
use Prim.Native.Char.{code}
use Prim.Native.String.{String}
use up2date_cpp.Base.{
  ℕ, ◌≡◌, refl, ap, ◌↔◌, Bool, true, false, not, ◌&&◌, List, [], ◌∷◌, ◌++◌, ◌≢◌, arith, ◌==◌, ltb,
  if◌then◌else◌, All,
}

abbrev pub Text : Type 0
Text = List ℕ

-- The bytes of an ASCII literal.
abbrev pub codes : String → Text
codes String.[] = []
codes (String.◌∷◌ c s) = code c ∷ codes s

-- `operator==` of two strings.
unfoldable pub equal : Text → Text → Bool
equal [] [] = true
equal (x ∷ xs) (y ∷ ys) = x == y && equal xs ys
equal _ _ = false

pub equal_iff : (a b : Text) → (equal a b ≡ true) ↔ (a ≡ b)
unfolding equal
equal_iff (x ∷ a) (y ∷ b) = ground (arith, equal_iff a b)
equal_iff _ _ = ground arith

pub equal_refl : (a : Text) → equal a a ≡ true
equal_refl a = (equal_iff a a).1 refl

-- `std::string::empty`
abbrev pub is_empty : Text → Bool
is_empty [] = true
is_empty (_ ∷ _) = false

-- `operator<` of two strings: bytes compare as `unsigned char`.
unfoldable pub less : Text → Text → Bool
less [] [] = false
less [] (y ∷ ys) = true
less (x ∷ xs) [] = false
less (x ∷ xs) (y ∷ ys) = if ltb x y then true else x == y && less xs ys

-- What a callee reads from `s.c_str()`: the bytes before the first NUL.
unfoldable pub c_str : Text → Text
c_str [] = []
c_str (x ∷ xs) = let rest = x ∷ c_str xs in if x == 0 then [] else rest

-- Every byte passes the test.
abbrev pub Every : (ℕ → Bool) → Text → Type 0
Every test = All (λ c. test c ≡ true)

abbrev pub is_not_nul : ℕ → Bool
is_not_nul c = not (c == 0)

pub c_str-eq_self : (s : Text) → Every is_not_nul s → c_str s ≡ s
unfolding c_str
c_str-eq_self [] h = refl
c_str-eq_self (x ∷ xs) h = ground (arith, c_str-eq_self xs h.1)

pub Every-append :
    (test : ℕ → Bool) (a b : Text) → Every test a → Every test b → Every test (a ++ b)
Every-append test [] b h k = k
Every-append test (x ∷ a) b h k = (h.0, Every-append test a b h.1 k)
