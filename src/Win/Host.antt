-- ===== src/Win/Host.antt =====
-- `extractDataFromHost` of modules/src/win/converters.c: the host, the port and whether the
-- request is secure, from the authority and the scheme of a URI.
use up2date_cpp.Base.{
  ℕ, ◌-◌, ◌%◌, ◌^◌, ◌<◌, ◌≡◌, refl, Bool, true, false, not, Option, none, some, [], ◌∷◌, ◌++◌, ◌==◌,
  if◌then◌else◌, arith,
}
use up2date_cpp.Base.Int.{ℤ, pos, negsuc, fits_int, fits_int_of_lt, int_limit}
use up2date_cpp.Text.{Text, codes, equal, Every}
use up2date_cpp.Text.Scan.{scan_int, scan_int-show_onto, show_onto}
use up2date_cpp.Outcome.{Result, ok, fault, overflow, ◌>>=◌}

-- What `extractDataFromHost` stores.
pub record HostData : Type 0 where
  pub host : Text
  pub port : ℤ
  pub is_https : Bool

abbrev number_of : Option (ℤ × Text) → Result ℤ
number_of none = ok (pos 0)
number_of (some (n, rest)) = if fits_int n then ok n else fault overflow

-- `atoi`: 0 where there is no number; a number outside the range of `int` is undefined behaviour.
unfoldable atoi : Text → Result ℤ
atoi s = number_of (scan_int s)

-- The bytes before the first ':', and `strstr(host, ":")`.
unfoldable before_colon : Text → Text
before_colon [] = []
before_colon (c ∷ s) = let rest = c ∷ before_colon s in if c == b':' then [] else rest

unfoldable from_colon : Text → Option Text
from_colon [] = none
from_colon (c ∷ s) = let rest = from_colon s in if c == b':' then some (c ∷ s) else rest

-- `INTERNET_DEFAULT_HTTP_PORT` and `INTERNET_DEFAULT_HTTPS_PORT`
abbrev default_http_port : ℤ
default_http_port = pos 80

abbrev default_https_port : ℤ
default_https_port = pos 443

-- A host with no port.
abbrev default_port : Text → Bool → HostData
default_port host true = record { host = host; port = default_https_port; is_https = true }
default_port host false = record { host = host; port = default_http_port; is_https = false }

-- `szPortSub + 1` is behind the colon.
abbrev with_port : Text → Text → Option Text → Result HostData
with_port host scheme none = ok (default_port host (equal (codes "https") scheme))
with_port host scheme (some []) = ok (default_port host false)
with_port host scheme (some (colon ∷ digits)) = do
  port ← atoi digits
  ok (record { host = before_colon host; port = port; is_https = false })

unfoldable pub extract_data_from_host : Text → Text → Result HostData
unfolding atoi before_colon from_colon
extract_data_from_host host scheme = with_port host scheme (from_colon host)

-- The port as `WinHttpConnect` takes it, a 16-bit number.
abbrev pub port_word : ℤ → ℕ
port_word (pos n) = n % 2 ^ 16
port_word (negsuc n) = 2 ^ 16 - 1 - n % 2 ^ 16

abbrev is_host_char : ℕ → Bool
is_host_char c = not (c == b':')

before_colon-append : (h s : Text) → Every is_host_char h → before_colon (h ++ b':' ∷ s) ≡ h
unfolding before_colon
before_colon-append [] s k = refl
before_colon-append (c ∷ h) s k = ground (arith, before_colon-append h s k.1)

from_colon-append :
    (h s : Text) → Every is_host_char h → from_colon (h ++ b':' ∷ s) ≡ some (b':' ∷ s)
unfolding from_colon
from_colon-append [] s k = refl
from_colon-append (c ∷ h) s k = ground (arith, from_colon-append h s k.1)

-- An authority with a port in it, below 2^31 and printed in decimal, is split into the host and
-- the port, and the request is not secure, whatever the scheme, https included.
pub extract_data_from_host_port :
    (h scheme : Text) (n : ℕ)
    → Every is_host_char h
    → n < int_limit
    → extract_data_from_host (h ++ b':' ∷ show_onto n []) scheme
      ≡ ok (record { host = h; port = pos n; is_https = false })
unfolding extract_data_from_host atoi
extract_data_from_host_port h scheme n k fit = rw (from_colon-append h (show_onto n []) k) (
    rw (scan_int-show_onto n [] tt)
      (rw (fits_int_of_lt n fit) (rw (before_colon-append h (show_onto n []) k) refl)))
