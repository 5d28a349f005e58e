-- ===== src/Win/Keys/Chain.antt =====
-- The certificates of the chain that the loop of `do_http_request_mtls_` puts into the store.
use up2date_cpp.Base.{
  ℕ, zero, suc, ◌+◌, ◌≤◌, ◌<◌, ◌≡◌, refl, sym, ◌∙◌, true, inl, inr, Bool-cases, none, some, List,
  [], ◌∷◌, ◌++◌, append_assoc, append-nil, length, if◌then◌else◌, ◌⊎◌, arith,
}
use up2date_cpp.Text.{Text}
use up2date_cpp.Outcome.{ok}
use up2date_cpp.Win.Api.{
  Call, called, decode_size, decode, create_context, add_context, chain_context, decoded, acquired,
  released, Answer, got, WinHttp, WinHistory, nullified, assigned, WinState, Jump, go, ◌>>=◌,
  proceed, note, acquire,
}
use up2date_cpp.Win.Request.{of_result}
use up2date_cpp.Win.Request.Succeeds.{Succeeds, call_lem}
use up2date_cpp.Win.Keys.{
  WinCrypt, begin_certificate, starts_with, strstr, advance, ask, release_null, chain_or_done,
  add_certificate, load_chain,
}

-- The places of a text where a certificate begins, map_text with all that follows it.
abbrev pub places : Text → List Text
places [] = []
places (c ∷ s) =
    let rest = places s in if starts_with begin_certificate (c ∷ s) then (c ∷ s) ∷ rest else rest

-- The contexts that were added to the store, in order.
abbrev pub added : WinHistory → List Text
added [] = []
added (called (add_context bytes) ∷ h) = added h ++ bytes ∷ []
added (_ ∷ h) = added h

abbrev pub map_text : (Text → Text) → List Text → List Text
map_text f [] = []
map_text f (x ∷ l) = f x ∷ map_text f l

-- `CryptStringToBinaryA` decodes the certificate that begins at a place, and skips nothing.
pub record Decodes (crypt : WinCrypt) (der : Text → Text) : Type 0 where
  pub size : ℕ
  pub sizes :
      (h : WinHistory) (s : Text)
      → starts_with begin_certificate s ≡ true
      → crypt.text_size h s ≡ got (size, 0)
  pub bytes :
      (h : WinHistory) (s : Text)
      → starts_with begin_certificate s ≡ true
      → crypt.text_bytes h s ≡ got (der s)

-- What `strstr` finds, against the list of all places.
pub record Found (s : Text) : Type 0 where
  pub first : ℕ
  pub rest : Text
  pub found : strstr s begin_certificate ≡ some (first ∷ rest)
  pub begins : starts_with begin_certificate (first ∷ rest) ≡ true
  pub all_places : places s ≡ (first ∷ rest) ∷ places rest
  pub shorter : suc (length rest) ≤ length s

pub strstr-places : (s : Text) → ((strstr s begin_certificate ≡ none) × (places s ≡ [])) ⊎ Found s
unfolding strstr starts_with
strstr-places [] = inl (refl, refl)
strstr-places (c ∷ s) = elim (Bool-cases (starts_with begin_certificate (c ∷ s))) [
  | inl here ↦ inr record {
    first = c;
    rest = s;
    found = rw here refl;
    begins = here;
    all_places = rw here refl;
    shorter = omega arith;
  }
  | inr later ↦ elim (strstr-places s) [
    | inl (e, l) ↦ inl (rw later e, rw later l)
    | inr f ↦ inr record {
      first = f.first;
      rest = f.rest;
      found = rw later f.found;
      begins = f.begins;
      all_places = rw later f.all_places;
      shorter = omega (arith, f.shorter);
    }
  ]
]

module _ (win : WinHttp) (works : Succeeds win) (crypt : WinCrypt) (der : Text → Text)
    (decodes : Decodes crypt der) {C : Type 0} where
  ask_lem :
      {A : Type 0} (c : Call) (f : WinHistory → Answer A) (a : A) (s : WinState C)
      → f s.history ≡ got a
      → ask c f s ≡ (go a, record s { history = called c ∷ s.history })
  unfolding ask ◌>>=◌ note proceed
  ask_lem c f a s e = rw e refl

  sized :
      (pos : Text)
      → starts_with begin_certificate pos ≡ true
      → (s : WinState C)
      → ask (decode_size pos) (λ k. crypt.text_size k pos) s
        ≡ (go (decodes.size, 0), record s { history = called (decode_size pos) ∷ s.history })
  sized pos h s = ask_lem _ _ _ s (decodes.sizes s.history pos h)

  decoded_as :
      (pos : Text)
      → starts_with begin_certificate pos ≡ true
      → (s : WinState C)
      → ask (decode pos) (λ k. crypt.text_bytes k pos) s
        ≡ (go (der pos), record s { history = called (decode pos) ∷ s.history })
  decoded_as pos h s = ask_lem _ _ _ s (decodes.bytes s.history pos h)

  abbrev after_certificate : Text → WinState C → WinState C
  after_certificate pos s = record s {
    pointers = nullified chain_context (assigned chain_context s.pointers);
    history =
        released chain_context
        ∷ called (add_context (der pos))
        ∷ acquired chain_context
        ∷ called (create_context (der pos))
        ∷ called (decode pos)
        ∷ acquired decoded
        ∷ called (decode_size pos)
        ∷ released decoded
        ∷ s.history;
  }

  add_certificate_lem :
      (pos : Text) (s : WinState C)
      → starts_with begin_certificate pos ≡ true
      → add_certificate win crypt pos s ≡ (go 0, after_certificate pos s)
  unfolding add_certificate ◌>>=◌ note proceed acquire release_null
  add_certificate_lem pos s h =
      rw (sized pos h, decoded_as pos h)
        (rw (call_lem win works (create_context (der pos)))
          (rw (call_lem win works (add_context (der pos))) refl))

  -- The loop went on to the end, and added these contexts.
  pub record Adds (certificates : List Text) (s : WinState C) (r : Jump (Unit {0}) × WinState C)
      : Type 0 where
    pub ends : r.0 ≡ go tt
    pub adds : added r.1.history ≡ added s.history ++ certificates

  nothing_added : (s : WinState C) → Adds [] s (proceed tt s)
  unfolding proceed
  nothing_added s = record { ends = refl; adds = sym (append-nil _) }

  one_added :
      (pos : Text) {certificates : List Text} (s : WinState C) {r : Jump (Unit {0}) × WinState C}
      → Adds certificates (after_certificate pos s) r
      → Adds (der pos ∷ certificates) s r
  one_added pos s a = record {
    ends = a.ends;
    adds = a.adds ∙ append_assoc (added s.history) (der pos ∷ []) _;
  }

  walk :
      (fuel : ℕ) (next : Text) (s : WinState C)
      → length next ≤ fuel
      → Adds (map_text der (places next)) s (
          chain_or_done win crypt
            (λ found. add_certificate win crypt found >>= load_chain win crypt fuel found)
            (strstr next begin_certificate)
            s)
  unfolding ◌>>=◌ load_chain of_result advance
  walk zero next s h = elim (strstr-places next) [
    | inl (e, l) ↦ rw e (rw l (nothing_added s))
    | inr f ↦ absurd (omega (arith, h, f.shorter))
  ]
  walk (suc fuel) next s h = elim (strstr-places next) [
    | inl (e, l) ↦ rw e (rw l (nothing_added s))
    | inr f ↦ rw f.found (
        rw f.all_places (
          rw (add_certificate_lem (f.first ∷ f.rest) s f.begins)
            (one_added (f.first ∷ f.rest) s (walk fuel f.rest _ (omega (arith, h, f.shorter))))))
  ]

  -- If every call succeeds and a certificate is decoded where it begins, the loop over the chain
  -- ends, and adds to the store the certificates of all places of the text behind the one that was
  -- read first, in order.
  pub load_chain-places :
      (fuel : ℕ) (pos next : Text) (skip : ℕ) (s : WinState C)
      → advance (skip + 1) pos ≡ ok next
      → length next < fuel
      → Adds (map_text der (places next)) s (load_chain win crypt fuel pos skip s)
  unfolding load_chain ◌>>=◌ of_result
  load_chain-places zero pos next skip s e h = absurd (omega (arith, h))
  load_chain-places (suc fuel) pos next skip s e h = rw e (walk fuel next s (omega (arith, h)))
