-- ===== src/Uri.antt =====
-- modules/src/uriparse.cpp: `uri::URI` and `URI::fromString`. The regular expression
--   ^(([^:\/?#]+):)?(//([^\/?#]*))?([^?#]*)(\?([^#]*))?(#(.*))?
-- is in the POSIX extended grammar, where a backslash in a bracket is a character like any other
-- (so the first two brackets exclude it) and `.` matches every character but NUL. Each group is
-- followed by what its characters exclude, so a greedy match of each group in turn is the match.
pub mod Match
pub mod Compose
pub mod Sound
use Match.{
  UriMatch, span, every, match_scheme, match_authority, match_query, match_fragment, regex_match,
}
use up2date_cpp.Base.{
  ◌≡◌, refl, Bool, true, false, not, ◌||◌, Option, none, some, [], ◌⊎◌, inl, inr,
}
use up2date_cpp.Text.{Text, codes, is_empty}
use up2date_cpp.Outcome.{Exception, Result, ok, throw, runtime_error}

pub record Uri : Type 0 where
  pub scheme : Text
  pub authority : Text
  pub path : Text
  pub query : Text
  pub fragment : Text

-- `URI()`: five empty strings.
abbrev pub no_uri : Uri
no_uri = record { scheme = []; authority = []; path = []; query = []; fragment = [] }

-- `std::string = std::sub_match`: empty where the group did not take part.
abbrev pub or_empty : Option Text → Text
or_empty none = []
or_empty (some t) = t

-- The chain of early returns of `fromString` behind the match. Group 5 always takes part.
store_fragment : Uri → Option Text → Uri
store_fragment u none = u
store_fragment u (some t) = record u { fragment = t }

store_query : Uri → Option Text → Option Text → Uri
unfolding store_fragment
store_query u none fragment = u
store_query u (some t) fragment = store_fragment (record u { query = t }) fragment

store_groups : UriMatch → Option Text → Result Uri
unfolding store_query
store_groups m none = throw (runtime_error (codes "No scheme or authority"))
store_groups m (some authority) = ok (
    store_query (record no_uri { scheme = or_empty m.scheme; authority = authority; path = m.path })
      m.query m.fragment)

pub store_match : Option UriMatch → Result Uri
unfolding store_groups
store_match none = throw (runtime_error (codes "Malformed url."))
store_match (some m) = store_groups m m.authority

-- `URI::fromString`
unfoldable pub from_string : Text → Result Uri
unfolding store_match regex_match match_scheme match_authority span match_query match_fragment every
from_string s = store_match (regex_match s)

-- `URI::isEmpty`, `hasPath`, `hasQuery`, `hasFragment`
unfoldable pub is_empty_uri : Uri → Bool
is_empty_uri u = is_empty u.scheme || is_empty u.authority

unfoldable pub has_path : Uri → Bool
has_path u = not (is_empty u.path)

unfoldable pub has_query : Uri → Bool
has_query u = not (is_empty u.query)

unfoldable pub has_fragment : Uri → Bool
has_fragment u = not (is_empty u.fragment)

-- `fromString` acts on the match alone.
pub from_string_lem : (s : Text) → from_string s ≡ store_match (regex_match s)
unfolding from_string
from_string_lem s = refl

groups_end :
    (m : UriMatch) (group : Option Text)
    → ((u : Uri) × (store_groups m group ≡ ok u))
      ⊎ ((e : Exception) × (store_groups m group ≡ throw e))
unfolding store_groups
groups_end m none = inr (_, refl)
groups_end m (some authority) = inl (_, refl)

-- A text is a URI or is refused; no place outside of it is read.
pub store_match_ends :
    (m : Option UriMatch)
    → ((u : Uri) × (store_match m ≡ ok u)) ⊎ ((e : Exception) × (store_match m ≡ throw e))
unfolding store_match store_groups
store_match_ends none = inr (_, refl)
store_match_ends (some m) = groups_end m m.authority
