-- ===== src/Win/Keys/Listed.antt =====
-- The pointer to a listed certificate in the loop that clears the store, and the calls with a
-- result, against the resources that are held.
use up2date_cpp.Base.{
  ℕ, zero, suc, ◌≡◌, refl, sym, ◌∙◌, ap, Bool, true, false, inl, inr, Bool-cases, ◌∷◌, ◌==◌, ltb,
  if◌then◌else◌, arith,
}
use mathlib.Core.Path.{subst, fun_ext}
use up2date_cpp.Win.Api.{
  Resource, number, same, listed_context, Call, delete_listed, list_store, called, released, Answer,
  WinHttp, WinHistory, Pointers, nullified, assigned, WinState, Proc, ◌>>=◌, ◌>>◌, proceed, note,
  acquire, of_answer,
}
use up2date_cpp.Win.Owns.{
  Owns, EndsIn, Step, Step-bind, Step-proceed, Step-acquire, Step-note, Step-of_answer, Step-asking,
}
use up2date_cpp.Win.Request.Releases.{call-Step}
use up2date_cpp.Win.Keys.{
  WinCrypt, ask, release_null, enumerate, clear_listed, clear_store, enumerated,
}

-- The pointers that the label `clear` looks at.
abbrev pub is_cleared : ℕ → Bool
is_cleared n = ltb 7 n

nullified-assigned :
    (r : Resource) (p : Pointers) → p (number r) ≡ false → nullified r (assigned r p) ≡ p
nullified-assigned r p h = fun_ext (λ n. elim (Bool-cases (number r == n)) [
  | inl it ↦ let e : number r ≡ n = ground (arith, it) in rw it (sym (subst (λ k. p k ≡ false) e h))
  | inr other ↦ rw other refl
])

assigned_self : (r : Resource) (p : Pointers) → assigned r p (number r) ≡ true
assigned_self r p = ground arith

module _ (win : WinHttp) (crypt : WinCrypt) (q : Resource) (start : WinHistory) {C : Type 0} where
  pub ask-Step :
      {A : Type 0} {p : Pointers} (c : Call) (f : WinHistory → Answer A)
      → Step is_cleared q start {C = C} p (ask c f) p
  unfolding ask
  ask-Step c f =
      Step-asking _ _ _ (λ (s : WinState C). note (called c) >> of_answer (f s.history))
        (λ s.
          Step-bind _ _ _ (Step-note _ _ _ (called c) tt) (λ _. Step-of_answer _ _ _ (f s.history)))

  released_Owns :
      (r : Resource) (s : WinState C)
      → s.pointers (number r) ≡ true
      → Owns is_cleared q start s
      → Owns is_cleared q start
          (record s { pointers = nullified r s.pointers; history = released r ∷ s.history })
  released_Owns r s h o = elim (Bool-cases (same r q)) [
    | inl it ↦
        let e : number r ≡ number q = ground (arith, it) in
        let held : s.pointers (number q) ≡ true = subst (λ k. s.pointers k ≡ true) e h in
        record { counts = ground (arith, o.counts); others = ground (arith, o.others) }
    | inr other ↦ record { counts = ground (arith, o.counts); others = ground (arith, o.others) }
  ]

  pub Step-release_null :
      {p : Pointers} (r : Resource)
      → p (number r) ≡ false
      → Step is_cleared q start {C = C} (assigned r p) (release_null r) p
  unfolding release_null
  Step-release_null {p} r h = record {
    at = λ s e o. (
      ap (nullified r) e ∙ nullified-assigned r p h,
      released_Owns r s (ap (λ f. f (number r)) e ∙ assigned_self r p) o,
    );
  }

  -- Behind an enumeration the pointer to a listed context is set if the answer was yes.
  module _ {A : Type 0} (f : Bool → Proc C A) {p p' : Pointers}
      (free : p (number listed_context) ≡ false) (no : Step is_cleared q start p (f false) p')
      (yes : Step is_cleared q start (assigned listed_context p) (f true) p') where
    found_EndsIn :
        (found : Bool) (s : WinState C)
        → s.pointers ≡ p
        → Owns is_cleared q start s
        → EndsIn is_cleared q start p'
            (((if found then acquire listed_context else proceed tt) >> proceed found >>= f) s)
    unfolding ◌>>=◌ proceed acquire
    found_EndsIn false s e o = no.at s e o
    found_EndsIn true s e o =
        yes.at _ (ap (assigned listed_context) e)
          (((Step-acquire is_cleared q start listed_context refl free).at s e o).1)

    enumerated-EndsIn :
        (held found : Bool) (s : WinState C)
        → s.pointers ≡ (if held then assigned listed_context p else p)
        → Owns is_cleared q start s
        → EndsIn is_cleared q start p' ((enumerated win crypt held found >>= f) s)
    unfolding ◌>>=◌ note proceed release_null
    enumerated-EndsIn false found s e o =
        let t = (Step-note is_cleared q start (called list_store) tt).at s e o in
        found_EndsIn found _ t.0 t.1
    enumerated-EndsIn true found s e o =
        let t = (Step-note is_cleared q start (called list_store) tt).at s e o in
        let u = (Step-release_null listed_context free).at _ t.0 t.1 in found_EndsIn found _ u.0 u.1

    enumerate-bind :
        (held : Bool)
        → Step is_cleared q start
            (if held then assigned listed_context p else p)
            (enumerate win crypt >>= f)
            p'
    unfolding enumerate ◌>>=◌
    enumerate-bind held = record {
      at = λ s e o.
          enumerated-EndsIn (s.pointers (number listed_context)) (crypt.lists s.history) s
            (e
              ∙ same_pointers held (s.pointers (number listed_context))
                  (ap (λ g. g (number listed_context)) e))
            o;
    }
      where
        same_pointers :
            (a b : Bool)
            → b ≡ (if a then assigned listed_context p else p) (number listed_context)
            → (if a then assigned listed_context p else p)
              ≡ (if b then assigned listed_context p else p)
        same_pointers true true h = refl
        same_pointers false false h = refl
        same_pointers true false h = absurd (ground (arith, h))
        same_pointers false true h = absurd (ground (arith, h, free))

  pub clear_store-Step :
      {p : Pointers} (fuel : ℕ) (held : Bool)
      → p (number listed_context) ≡ false
      → Step is_cleared q start {C = C}
          (if held then assigned listed_context p else p)
          (clear_store win crypt fuel)
          p
  unfolding clear_store
  clear_store-Step zero held free = record { at = λ s e o. tt }
  clear_store-Step {p} (suc fuel) held free =
      enumerate-bind (clear_listed win crypt (clear_store win crypt fuel)) free
        (Step-proceed _ _ _ tt)
        (Step-bind _ _ _ (call-Step is_cleared win q start delete_listed) (λ _.
          enumerate-bind (λ _. clear_store win crypt fuel) free
            (clear_store-Step {p = p} fuel false free) (clear_store-Step {p = p} fuel true free)
            true))
        held
