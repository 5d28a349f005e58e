-- ===== src/Ddi/Payload.antt =====
-- ddi/src/acions_impl.cpp and ddi/src/actions_impl.hpp: what the client reads out of the JSON
-- that hawkBit sends. A check `if (!…) throw unexpected_payload();` is `require`.
pub mod Polling
pub mod Cancel
pub mod Deployment
use up2date_cpp.Base.{Bool, true, false, not, Option, none, some, List, [], ◌∷◌, if◌then◌else◌}
use up2date_cpp.Base.Int.{ℤ, fits_int}
use up2date_cpp.Text.{Text, codes, c_str}
use up2date_cpp.Text.Scan.{scan_int}
use up2date_cpp.Outcome.{
  Result, ok, throw, fault, overflow, invalid_argument, out_of_range, unexpected_payload, throw_if,
  asserted, rethrow_as, ◌>>=◌, ◌>>◌,
}
use up2date_cpp.Uri.{Uri, from_string}
use up2date_cpp.Json.{RapidJson, has_member, text_member}

abbrev pub require : Result Bool → Result (Unit {0})
require m = do b ← m; throw_if (not b) unexpected_payload

abbrev in_int_range : ℤ → Result ℤ
in_int_range n = if fits_int n then ok n else throw out_of_range

abbrev stoi_of : Option (ℤ × Text) → Result ℤ
stoi_of none = throw invalid_argument
stoi_of (some (n, rest)) = in_int_range n

-- `std::stoi`
unfoldable pub stoi : Text → Result ℤ
stoi s = stoi_of (scan_int s)

-- The result of an `int` operation: a value outside the range is undefined behaviour.
abbrev pub checked_int : ℤ → Result ℤ
checked_int n = if fits_int n then ok n else fault overflow

-- A loop over the elements of an array that collects what it makes of each.
unfoldable pub each {ℓ} : {A : Type ℓ} {B : Type 0} → (A → Result B) → List A → Result (List B)
each f [] = ok []
each f (x ∷ xs) = do y ← f x; ys ← each f xs; ok (y ∷ ys)

module _ (json : RapidJson) where
  abbrev parsed : Option json.Value → Result json.Value
  parsed none = throw unexpected_payload
  parsed (some v) = ok v

  -- `document.Parse<0>(body.c_str()); if (document.HasParseError()) throw unexpected_payload();`
  unfoldable pub parse_document : Text → Result json.Value
  parse_document body = parsed (json.parse (c_str body))

  -- `parseHrefObject`
  unfoldable pub parse_href_object : json.Value → Result Uri
  unfolding text_member
  parse_href_object v =
      rethrow_as unexpected_payload (do t ← text_member json v (codes "href"); from_string t)
