-- ===== src/Uri/Compose.antt =====
-- Texts put together from the groups of a URI, and what `fromString` makes of them.
use up2date_cpp.Base.{
  ℕ, ◌≡◌, ◌≢◌, refl, ap, ◌∙◌, Bool, true, false, Option, none, some, [], ◌∷◌, ◌++◌, arith,
}
use up2date_cpp.Text.{Text, Every, is_not_nul}
use up2date_cpp.Outcome.{ok}
use up2date_cpp.Uri.{Uri, or_empty, store_match, from_string, from_string_lem}
use up2date_cpp.Uri.Match.{
  UriMatch, span, every, match_scheme, match_authority, match_query, match_fragment, regex_match,
  is_scheme_char, is_authority_char, is_path_char, is_query_char,
}

-- A text that does not go on with a character of the set.
abbrev pub Stops : (ℕ → Bool) → Text → Type 0
Stops test [] = Unit
Stops test (c ∷ s) = test c ≡ false

pub span-append :
    (test : ℕ → Bool) (a b : Text) → Every test a → Stops test b → span test (a ++ b) ≡ (a, b)
unfolding span
span-append test [] [] h k = refl
span-append test [] (c ∷ b) h k = rw k
span-append test (x ∷ a) b h k = rw (h.0, span-append test a b h.1 k)

-- The parts of the text of a URI. A query and a fragment may be there and be empty.
pub record Parts : Type 0 where
  pub scheme : Option Text
  pub authority : Text
  pub path : Text
  pub query : Option Text
  pub fragment : Option Text

abbrev pub scheme_onto : Option Text → Text → Text
scheme_onto none rest = rest
scheme_onto (some s) rest = s ++ (b':' ∷ rest)

abbrev pub fragment_text : Option Text → Text
fragment_text none = []
fragment_text (some t) = b'#' ∷ t

abbrev pub query_onto : Option Text → Text → Text
query_onto none rest = rest
query_onto (some t) rest = b'?' ∷ (t ++ rest)

-- scheme:, //authority, path, ?query, #fragment
unfoldable pub compose : Parts → Text
compose p =
    scheme_onto p.scheme
      (b'/' ∷ b'/' ∷ (p.authority ++ (p.path ++ query_onto p.query (fragment_text p.fragment))))

abbrev pub Given : (Text → Type 0) → Option Text → Type 0
Given P none = Unit
Given P (some t) = P t

abbrev pub IsScheme : Text → Type 0
IsScheme s = (s ≢ []) × Every is_scheme_char s

-- Each part has only characters that the part may have, and the path does not go on where the
-- authority ended.
pub record IsWellFormed (p : Parts) : Type 0 where
  pub scheme_ok : Given IsScheme p.scheme
  pub authority_ok : Every is_authority_char p.authority
  pub path_ok : Every is_path_char p.path
  pub path_stops : Stops is_authority_char p.path
  pub query_ok : Given (Every is_query_char) p.query
  pub fragment_ok : Given (Every is_not_nul) p.fragment

-- What `fromString` stores: the fragment is stored only behind a query.
abbrev pub fragment_behind : Option Text → Option Text → Text
fragment_behind none fragment = []
fragment_behind (some _) fragment = or_empty fragment

unfoldable pub uri_of : Parts → Uri
uri_of p = record {
  scheme = or_empty p.scheme;
  authority = p.authority;
  path = p.path;
  query = or_empty p.query;
  fragment = fragment_behind p.query p.fragment;
}

match_scheme-scheme_onto :
    (scheme : Option Text) (rest : Text)
    → Given IsScheme scheme
    → match_scheme (scheme_onto scheme (b'/' ∷ rest)) ≡ (scheme, b'/' ∷ rest)
unfolding match_scheme span
match_scheme-scheme_onto none rest h = refl
match_scheme-scheme_onto (some []) rest h = absurd (h.0 refl)
match_scheme-scheme_onto (some (x ∷ s)) rest h =
    rw (span-append is_scheme_char (x ∷ s) (b':' ∷ b'/' ∷ rest) h.1 refl)

every_of_Every : (test : ℕ → Bool) (s : Text) → Every test s → every test s ≡ true
unfolding every
every_of_Every test [] h = refl
every_of_Every test (c ∷ s) h = rw (h.0, every_of_Every test s h.1)

match_fragment-fragment_text :
    (fragment : Option Text)
    → Given (Every is_not_nul) fragment
    → match_fragment (fragment_text fragment) ≡ some fragment
unfolding match_fragment
match_fragment-fragment_text none h = refl
match_fragment-fragment_text (some t) h = rw (every_of_Every is_not_nul t h)

match_query-query_onto :
    (query fragment : Option Text)
    → Given (Every is_query_char) query
    → match_query (query_onto query (fragment_text fragment)) ≡ (query, fragment_text fragment)
unfolding match_query
match_query-query_onto none none h = refl
match_query-query_onto none (some f) h = refl
match_query-query_onto (some q) none h = rw (span-append is_query_char q [] h tt)
match_query-query_onto (some q) (some f) h = rw (span-append is_query_char q (b'#' ∷ f) h refl)

-- Behind the path stands nothing, a `?` or a `#`.
query_onto-Stops :
    (query fragment : Option Text) → Stops is_path_char (query_onto query (fragment_text fragment))
query_onto-Stops none none = tt
query_onto-Stops none (some f) = refl
query_onto-Stops (some q) fragment = refl

path-Stops :
    (path : Text) (query fragment : Option Text)
    → Stops is_authority_char path
    → Stops is_authority_char (path ++ query_onto query (fragment_text fragment))
path-Stops [] none none h = tt
path-Stops [] none (some f) h = refl
path-Stops [] (some q) fragment h = refl
path-Stops (c ∷ path) query fragment h = h

abbrev pub match_of : Parts → UriMatch
match_of p = record {
  scheme = p.scheme;
  authority = some p.authority;
  path = p.path;
  query = p.query;
  fragment = p.fragment;
}

regex_match-compose : (p : Parts) → IsWellFormed p → regex_match (compose p) ≡ some (match_of p)
unfolding regex_match compose match_authority
regex_match-compose p h =
    let tail = query_onto p.query (fragment_text p.fragment) in
    rw (match_scheme-scheme_onto p.scheme (b'/' ∷ (p.authority ++ (p.path ++ tail))) h.scheme_ok) (
      rw
        (span-append is_authority_char p.authority (p.path ++ tail) h.authority_ok
          (path-Stops p.path p.query p.fragment h.path_stops))
        (rw (span-append is_path_char p.path tail h.path_ok (query_onto-Stops p.query p.fragment)) (
          rw (match_query-query_onto p.query p.fragment h.query_ok)
            (rw (match_fragment-fragment_text p.fragment h.fragment_ok)))))

pub store_match-match_of : (p : Parts) → store_match (some (match_of p)) ≡ ok (uri_of p)
unfolding store_match uri_of
store_match-match_of p = ground arith

-- `fromString` of a text put together from well-formed parts with an authority gives back the
-- scheme (empty where there is none), the authority, the path and the query (empty where there
-- is none); the fragment comes back behind a query, and without a query it is dropped.
pub from_string-compose : (p : Parts) → IsWellFormed p → from_string (compose p) ≡ ok (uri_of p)
from_string-compose p h =
    from_string_lem (compose p) ∙ ap store_match (regex_match-compose p h) ∙ store_match-match_of p
