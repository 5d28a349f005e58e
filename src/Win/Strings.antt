-- ===== src/Win/Strings.antt =====
-- Places in C strings, for the loop over a chain of certificates in modules/src/win/win_http.c.
use up2date_cpp.Base.{
  ℕ, zero, suc, Bool, true, false, Option, none, some, [], ◌∷◌, ◌&&◌, ◌==◌, if◌then◌else◌,
}
use up2date_cpp.Text.{Text, codes}
use up2date_cpp.Outcome.{Result, ok, fault, out_of_bounds}

abbrev pub begin_certificate : Text
begin_certificate = codes "-----BEGIN CERTIFICATE-----"

-- `strstr`, with the text from the place that was found.
unfoldable pub starts_with : Text → Text → Bool
starts_with [] s = true
starts_with (x ∷ w) [] = false
starts_with (x ∷ w) (c ∷ s) = x == c && starts_with w s

unfoldable pub strstr : Text → Text → Option Text
unfolding starts_with
strstr [] w = if starts_with w [] then some [] else none
strstr (c ∷ s) w = let rest = strstr s w in if starts_with w (c ∷ s) then some (c ∷ s) else rest

-- A pointer into a text that is moved on, up to the terminating NUL at most.
unfoldable pub advance : ℕ → Text → Result Text
advance zero s = ok s
advance (suc n) [] = fault out_of_bounds
advance (suc n) (c ∷ s) = advance n s
