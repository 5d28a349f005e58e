-- ===== src/Win/Client/Headers.antt =====
-- The text of the headers, read back.
use up2date_cpp.Base.{
  ℕ, zero, suc, ◌<◌, ◌≡◌, refl, Bool, false, not, ◌&&◌, Option, none, some, [], ◌∷◌, ◌++◌, ◌==◌,
  length, if◌then◌else◌, All, arith,
}
use up2date_cpp.Text.{Text, codes, equal, equal_refl, Every}
use up2date_cpp.Multimap.{Multimap}
use up2date_cpp.Win.Client.{format_headers}

-- The bytes before the first `stop`.
unfoldable pub until : ℕ → Text → Text × Text
until stop [] = ([], [])
until stop (c ∷ s) =
    let (run, rest) = until stop s in if c == stop then ([], c ∷ s) else (c ∷ run, rest)

abbrev closed : ℕ → ℕ → Text × Text → Option (Text × Text)
closed a b (run, x ∷ y ∷ rest) = if x == a && y == b then some (run, rest) else none
closed a b _ = none

-- A field that ends at the first `a`, which `b` must follow; and what is behind it.
unfoldable field : ℕ → ℕ → Text → Option (Text × Text)
unfolding until
field a b s = closed a b (until a s)

infixl 5 ◌>>=◌
abbrev ◌>>=◌ : {A B : Type 0} → Option A → (A → Option B) → Option B
none >>= f = none
some a >>= f = f a

-- Headers as a server reads them: a name up to ": ", a value up to "\r\n", and so on up to an
-- empty line, which is the end.
unfoldable pub read_headers : ℕ → Text → Option Multimap
unfolding field
read_headers zero s = none
read_headers (suc fuel) s = if equal s (codes "\r\n") then some [] else (do
  (name, s₁) ← field b':' b' ' s
  (value, s₂) ← field 13 10 s₁
  headers ← read_headers fuel s₂
  some ((name, value) ∷ headers))

abbrev is_name_char : ℕ → Bool
is_name_char c = not (c == b':') && not (c == 13)

abbrev is_value_char : ℕ → Bool
is_value_char c = not (c == 13)

-- Names without ':' and "\r", and values without "\r".
abbrev IsPrintable : Multimap → Type 0
IsPrintable = All (λ header. Every is_name_char header.0 × Every is_value_char header.1)

until-append :
    (stop : ℕ) (a s : Text)
    → Every (λ c. not (c == stop)) a
    → until stop (a ++ stop ∷ s) ≡ (a, stop ∷ s)
unfolding until
until-append stop [] s h = ground arith
until-append stop (c ∷ a) s h = rw (until-append stop a s h.1) (ground (arith, h.0))

field-append :
    (a b : ℕ) (run s : Text)
    → Every (λ c. not (c == a)) run
    → field a b (run ++ a ∷ b ∷ s) ≡ some (run, s)
unfolding field
field-append a b run s h = rw (until-append a run (b ∷ s) h) (ground arith)

no_colon : (name : Text) → Every is_name_char name → Every (λ c. not (c == b':')) name
no_colon [] h = tt
no_colon (c ∷ name) h = (ground (arith, h.0), no_colon name h.1)

is_not_end :
    (name s : Text) → Every is_name_char name → equal (name ++ b':' ∷ s) (codes "\r\n") ≡ false
unfolding equal
is_not_end [] s h = refl
is_not_end (c ∷ name) s h = ground (arith, h.0)

-- Headers whose names have no ':' and no "\r", and whose values have no "\r", are read back from
-- their text as they are, in their order, if the reader has more rounds than there are headers.
pub read_headers-format_headers :
    (fuel : ℕ) (headers : Multimap)
    → IsPrintable headers
    → length headers < fuel
    → read_headers fuel (format_headers headers) ≡ some headers
unfolding read_headers format_headers
read_headers-format_headers zero headers h k = absurd (omega (arith, k))
read_headers-format_headers (suc fuel) [] h k = rw (equal_refl (codes "\r\n")) refl
read_headers-format_headers (suc fuel) ((name, value) ∷ headers) h k =
    rw (is_not_end name _ h.0.0) (
      rw (field-append b':' b' ' name _ (no_colon name h.0.0)) (
        rw (field-append 13 10 value (format_headers headers) h.0.1)
          (rw (read_headers-format_headers fuel headers h.1 (omega (arith, k))) refl)))
