-- ===== src/Uri/Match.antt =====
-- The match of `uri_regex`, group by group.
use up2date_cpp.Base.{ℕ, Bool, true, not, ◌&&◌, Option, none, some, [], ◌∷◌, ◌==◌, if◌then◌else◌}
use up2date_cpp.Text.{Text, is_not_nul}

-- `[^:\/?#]`, `[^\/?#]`, `[^?#]`, `[^#]`
abbrev pub is_query_char : ℕ → Bool
is_query_char c = not (c == b'#')

abbrev pub is_path_char : ℕ → Bool
is_path_char c = not (c == b'?') && is_query_char c

abbrev pub is_authority_char : ℕ → Bool
is_authority_char c = not (c == b'\\') && not (c == b'/') && is_path_char c

abbrev pub is_scheme_char : ℕ → Bool
is_scheme_char c = not (c == b':') && is_authority_char c

-- The longest run of such characters, and what follows it.
unfoldable pub span : (ℕ → Bool) → Text → Text × Text
span test [] = ([], [])
span test (c ∷ s) = let (run, rest) = span test s in if test c then (c ∷ run, rest) else ([], c ∷ s)

-- The groups 2, 4, 5, 7 and 9; `none` where a group takes no part in the match.
pub record UriMatch : Type 0 where
  pub scheme : Option Text
  pub authority : Option Text
  pub path : Text
  pub query : Option Text
  pub fragment : Option Text

-- `(([^:\/?#]+):)?`
unfoldable pub close_scheme : Text → Text × Text → Option Text × Text
close_scheme s (run, []) = (none, s)
close_scheme s ([], _ ∷ _) = (none, s)
close_scheme s (x ∷ run, c ∷ rest) = if c == b':' then (some (x ∷ run), rest) else (none, s)

unfoldable pub match_scheme : Text → Option Text × Text
unfolding close_scheme
match_scheme s = close_scheme s (span is_scheme_char s)

abbrev with_some : Text × Text → Option Text × Text
with_some (run, rest) = (some run, rest)

-- `(//([^\/?#]*))?`
unfoldable pub match_authority : Text → Option Text × Text
match_authority (a ∷ b ∷ s) =
    if a == b'/' && b == b'/' then with_some (span is_authority_char s) else (none, a ∷ b ∷ s)
match_authority s = (none, s)

-- `(\?([^#]*))?`
unfoldable pub match_query : Text → Option Text × Text
match_query [] = (none, [])
match_query (c ∷ s) = if c == b'?' then with_some (span is_query_char s) else (none, c ∷ s)

unfoldable pub every : (ℕ → Bool) → Text → Bool
every test [] = true
every test (c ∷ s) = test c && every test s

-- `(#(.*))?` up to the end of the text; `none` where the text does not match.
unfoldable pub match_fragment : Text → Option (Option Text)
match_fragment [] = some none
match_fragment (c ∷ s) = if c == b'#' && every is_not_nul s then some (some s) else none

abbrev pub groups :
    Option Text → Option Text → Text → Option Text → Option (Option Text) → Option UriMatch
groups scheme authority path query none = none
groups scheme authority path query (some fragment) = some (record {
  scheme = scheme;
  authority = authority;
  path = path;
  query = query;
  fragment = fragment;
})

-- `std::regex_match(path, url_match, uri_regex)`
unfoldable pub regex_match : Text → Option UriMatch
regex_match s =
    let (scheme, s₁) = match_scheme s in
    let (authority, s₂) = match_authority s₁ in
    let (path, s₃) = span is_path_char s₂ in
    let (query, s₄) = match_query s₃ in groups scheme authority path query (match_fragment s₄)
