-- ===== src/Uri/Sound.antt =====
-- Every text that `fromString` accepts is put together from well-formed parts.
use up2date_cpp.Base.{
  ℕ, ◌≡◌, ◌≢◌, refl, sym, ap, ◌∙◌, Bool, true, Option, none, some, [], ◌∷◌, ◌++◌, arith, inl, inr,
  ◌==◌, ◌&&◌, Bool-cases, Option-cases,
}
use up2date_cpp.Text.{Text, Every, is_not_nul}
use up2date_cpp.Outcome.{ok, throw, ok-injective}
use up2date_cpp.Uri.{Uri, or_empty, from_string, store_match, from_string_lem}
use up2date_cpp.Uri.Match.{
  UriMatch, groups, span, every, close_scheme, match_scheme, match_authority, match_query,
  match_fragment, regex_match, is_scheme_char, is_authority_char, is_path_char, is_query_char,
}
use up2date_cpp.Uri.Compose.{
  Stops, Parts, compose, scheme_onto, query_onto, fragment_text, Given, IsScheme, IsWellFormed,
  uri_of, match_of, store_match-match_of,
}

-- A run and its rest make up the text, and the run is as long as it can be.
record Splits (test : ℕ → Bool) (s : Text) (parts : Text × Text) : Type 0 where
  whole : s ≡ parts.0 ++ parts.1
  run : Every test parts.0
  stop : Stops test parts.1

span-Splits : (test : ℕ → Bool) (s : Text) → Splits test s (span test s)
unfolding span
span-Splits test [] = record { whole = refl; run = tt; stop = tt }
span-Splits test (c ∷ s) = elim (Bool-cases (test c)) [
  | inl more ↦
      let rest = span-Splits test s in
      rw more (record { whole = ap (◌∷◌ c) rest.whole; run = (more, rest.run); stop = rest.stop })
  | inr last ↦ rw last (record { whole = refl; run = tt; stop = last })
]

close_scheme_sound :
    (s : Text) (parts : Text × Text)
    → Splits is_scheme_char s parts
    → (s ≡ scheme_onto (close_scheme s parts).0 (close_scheme s parts).1)
      × Given IsScheme (close_scheme s parts).0
unfolding close_scheme
close_scheme_sound s (run, []) h = (refl, tt)
close_scheme_sound s ([], c ∷ rest) h = (refl, tt)
close_scheme_sound s (x ∷ run, c ∷ rest) h = elim (Bool-cases (c == b':')) [
  | inl colon ↦ rw colon (ground (arith, h.whole), (λ e. cc, h.run))
  | inr other ↦ rw other (refl, tt)
]

match_scheme_sound :
    (s : Text)
    → (s ≡ scheme_onto (match_scheme s).0 (match_scheme s).1) × Given IsScheme (match_scheme s).0
unfolding match_scheme
match_scheme_sound s = close_scheme_sound s (span is_scheme_char s) (span-Splits is_scheme_char s)

-- An authority stands behind two slashes and is as long as it can be.
match_authority_sound :
    (s : Text) (a : Text)
    → (match_authority s).0 ≡ some a
    → (s ≡ b'/' ∷ b'/' ∷ (a ++ (match_authority s).1))
      × Every is_authority_char a
      × Stops is_authority_char (match_authority s).1
unfolding match_authority
match_authority_sound [] a h = cc
match_authority_sound (x ∷ []) a h = cc
match_authority_sound (x ∷ y ∷ s) a h =
    let split = span-Splits is_authority_char s in
    elim (Bool-cases (x == b'/' && y == b'/')) [
      | inl slashes ↦
          let found : some (span is_authority_char s).0 ≡ some a = rw slashes at h in
          let taken : (span is_authority_char s).0 ≡ a = cc in
          rw (← taken) (rw slashes (ground (arith, split.whole), split.run, split.stop))
      | inr other ↦ let missing : none ≡ some a = rw other at h in cc
    ]

match_query_sound :
    (s : Text)
    → (s ≡ query_onto (match_query s).0 (match_query s).1)
      × Given (Every is_query_char) (match_query s).0
unfolding match_query
match_query_sound [] = (refl, tt)
match_query_sound (c ∷ s) =
    let split = span-Splits is_query_char s in
    elim (Bool-cases (c == b'?')) [
      | inl mark ↦ rw mark (ground (arith, split.whole), split.run)
      | inr other ↦ rw other (refl, tt)
    ]

Every_of_every : (test : ℕ → Bool) (s : Text) → every test s ≡ true → Every test s
unfolding every
Every_of_every test [] h = tt
Every_of_every test (c ∷ s) h = ground (arith, Every_of_every test s)

match_fragment_sound :
    (s : Text) (fragment : Option Text)
    → match_fragment s ≡ some fragment
    → (s ≡ fragment_text fragment) × Given (Every is_not_nul) fragment
unfolding match_fragment
match_fragment_sound [] none h = (refl, tt)
match_fragment_sound [] (some t) h = cc
match_fragment_sound (c ∷ s) none h = ground arith
match_fragment_sound (c ∷ s) (some t) h =
    let hash : (c ≡ b'#') × (s ≡ t) × (every is_not_nul s ≡ true) = ground arith in
    rw (← hash.1) (rw hash.0, Every_of_every is_not_nul s hash.2)

Stops_prefix : (a b : Text) → Stops is_authority_char (a ++ b) → Stops is_authority_char a
Stops_prefix [] b h = tt
Stops_prefix (c ∷ a) b h = h

-- What the groups of a match with an authority say about the text.
record Groups (s : Text) (m : UriMatch) : Type 0 where
  parts : Parts
  composed : s ≡ compose parts
  well_formed : IsWellFormed parts
  matched : m ≡ match_of parts

groups-eq-some :
    (scheme authority : Option Text) (path : Text) (query : Option Text)
    (end : Option (Option Text)) (m : UriMatch)
    → groups scheme authority path query end ≡ some m
    → (fragment : Option Text) × (end ≡ some fragment)
      × (m ≡ record {
        scheme = scheme;
        authority = authority;
        path = path;
        query = query;
        fragment = fragment;
      })
groups-eq-some scheme authority path query none m h = cc
groups-eq-some scheme authority path query (some fragment) m h = (fragment, refl, cc)

abbrev matched_with : Option Text → Text → Option Text → Option Text → Option Text → UriMatch
matched_with scheme path query fragment authority = record {
  scheme = scheme;
  authority = authority;
  path = path;
  query = query;
  fragment = fragment;
}

regex_match-Groups :
    (s : Text) (m : UriMatch) (a : Text)
    → regex_match s ≡ some m
    → m.authority ≡ some a
    → Groups s m
unfolding regex_match
regex_match-Groups s m a h e =
    let (scheme, s₁) = match_scheme s in
    let (authority, s₂) = match_authority s₁ in
    let (path, s₃) = span is_path_char s₂ in
    let (query, s₄) = match_query s₃ in
    let (fragment, ended, m-eq) =
      groups-eq-some scheme authority path query (match_fragment s₄) m h in
    let has_authority : authority ≡ some a = sym (ap (λ (n : UriMatch). n.authority) m-eq) ∙ e in
    let in_scheme = match_scheme_sound s in
    let in_authority = match_authority_sound s₁ a has_authority in
    let in_path = span-Splits is_path_char s₂ in
    let in_query = match_query_sound s₃ in
    let in_fragment = match_fragment_sound s₄ fragment ended in
    record {
      parts = record {
        scheme = scheme;
        authority = a;
        path = path;
        query = query;
        fragment = fragment;
      };
      composed =
          unfold compose in
          (in_scheme.0
            ∙ ap (scheme_onto scheme) (
                in_authority.0
                ∙ ap (λ t. b'/' ∷ b'/' ∷ (a ++ t))
                    (in_path.whole
                      ∙ ap (λ t. path ++ t) (in_query.0 ∙ ap (query_onto query) in_fragment.0))));
      well_formed = record {
        scheme_ok = in_scheme.1;
        authority_ok = in_authority.1;
        path_ok = in_path.run;
        path_stops = Stops_prefix path s₃ (rw in_path.whole at in_authority.2);
        query_ok = in_query.1;
        fragment_ok = in_fragment.1;
      };
      matched = m-eq ∙ ap (matched_with scheme path query fragment) has_authority;
    }

store_match-eq-ok :
    (found : Option UriMatch) (u : Uri)
    → store_match found ≡ ok u
    → (m : UriMatch) × (a : Text) × (found ≡ some m) × (m.authority ≡ some a)
unfolding store_match
store_match-eq-ok none u h = cc
store_match-eq-ok (some m) u h = elim (Option-cases m.authority) [
  | inl missing ↦ let refused : throw _ ≡ ok u = rw missing at h in cc
  | inr (a, given) ↦ (m, a, refl, given)
]

-- Whenever `fromString` accepts a text, the text is put together from well-formed parts with an
-- authority, and the URI is what `fromString` stores of those parts.
pub from_string-eq-ok :
    (s : Text) (u : Uri)
    → from_string s ≡ ok u
    → (p : Parts) × (s ≡ compose p) × IsWellFormed p × (u ≡ uri_of p)
from_string-eq-ok s u h =
    let stored : store_match (regex_match s) ≡ ok u = sym (from_string_lem s) ∙ h in
    let (m, a, found, given) = store_match-eq-ok (regex_match s) u stored in
    let g = regex_match-Groups s m a found given in
    let same : store_match (regex_match s) ≡ ok (uri_of g.parts) =
      ap store_match found
      ∙ ap (λ n. store_match (some n)) g.matched
      ∙ store_match-match_of g.parts in
    (g.parts, g.composed, g.well_formed, ok-injective (sym stored ∙ same))

IsScheme-of_Given :
    (scheme : Option Text)
    → Given IsScheme scheme
    → or_empty scheme ≢ []
    → IsScheme (or_empty scheme)
IsScheme-of_Given none h ne = absurd (ne refl)
IsScheme-of_Given (some s) h ne = h

-- The scheme and the authority of an accepted text hold only characters that they may hold.
pub from_string_chars :
    (s : Text) (u : Uri)
    → from_string s ≡ ok u
    → (u.scheme ≢ [] → IsScheme u.scheme) × Every is_authority_char u.authority
unfolding uri_of
from_string_chars s u h =
    let (p, composed, good, e) = from_string-eq-ok s u h in
    rw e (IsScheme-of_Given p.scheme good.scheme_ok, good.authority_ok)
