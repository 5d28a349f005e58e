-- ===== src/Win/Keys/Ends.antt =====
-- The loop over the chain ends, whatever the system answers.
use mathlib.Core.Path.{subst}
use up2date_cpp.Base.{
  ℕ, zero, suc, ◌+◌, ◌≤◌, ◌<◌, ◌≡◌, refl, ap, ◌∙◌, [], ◌∷◌, length, inl, inr, arith,
}
use up2date_cpp.Text.{Text}
use up2date_cpp.Outcome.{Result, ok, throw, fault, ok-injective}
use up2date_cpp.Win.Api.{
  Call, decode_size, decode, create_context, add_context, chain_context, decoded, acquired,
  released, Resource, Answer, got, failed, WinHttp, WinEvent, WinHistory, WinState, Jump, go,
  clean_with, thrown, crashed, unfinished, Proc, and_then, ◌>>=◌, proceed, goto_clean, note,
  acquire, of_answer,
}
use up2date_cpp.Win.Request.{call, of_result}
use up2date_cpp.Win.Keys.{
  WinCrypt, begin_certificate, strstr, advance, ask, release_null, chain_or_done, add_certificate,
  load_chain,
}
use up2date_cpp.Win.Keys.Chain.{strstr-places}

module _ {C : Type 0} where
  abbrev IsDone : {A : Type 0} → Jump A × WinState C → Type 0
  IsDone (unfinished, t) = ⊥
  IsDone _ = Unit

  -- A statement that does not run out of fuel.
  pub record Ends {A : Type 0} (m : Proc C A) : Type 0 where
    pub done : (s : WinState C) → IsDone (m s)

  IsDone-and_then :
      {A B : Type 0} (r : Jump A × WinState C) (f : A → Proc C B)
      → IsDone r
      → ((a : A) → Ends (f a))
      → IsDone (and_then r f)
  IsDone-and_then (go a, t) f d later = (later a).done t
  IsDone-and_then (clean_with code, t) f d later = tt
  IsDone-and_then (thrown e, t) f d later = tt
  IsDone-and_then (crashed x, t) f d later = tt
  IsDone-and_then (unfinished, t) f d later = absurd d

  Ends-bind :
      {A B : Type 0} {m : Proc C A} {f : A → Proc C B}
      → Ends m
      → ((a : A) → Ends (f a))
      → Ends (m >>= f)
  unfolding ◌>>=◌
  Ends-bind {m} {f} first later = record {
    done = λ s. IsDone-and_then (m s) f (first.done s) later;
  }

  Ends-of_answer : {A : Type 0} (a : Answer A) → Ends (of_answer {C = C} a)
  unfolding proceed goto_clean
  Ends-of_answer (got a) = record { done = λ s. tt }
  Ends-of_answer (failed code) = record { done = λ s. tt }

  Ends-note : (e : WinEvent) → Ends (note {C = C} e)
  unfolding note
  Ends-note e = record { done = λ s. tt }

  Ends-acquire : (r : Resource) → Ends (acquire {C = C} r)
  unfolding acquire
  Ends-acquire r = record { done = λ s. tt }

  Ends-release_null : (r : Resource) → Ends (release_null {C = C} r)
  unfolding release_null
  Ends-release_null r = record { done = λ s. tt }

  Ends-proceed : {A : Type 0} (a : A) → Ends (proceed {C = C} a)
  unfolding proceed
  Ends-proceed a = record { done = λ s. tt }

  Ends-ask : {A : Type 0} (c : Call) (f : WinHistory → Answer A) → Ends (ask {C = C} c f)
  unfolding ask ◌>>=◌ note
  Ends-ask c f = record { done = λ s. (Ends-of_answer (f s.history)).done _ }

  Ends-of_result :
      {A B : Type 0} (r : Result A) (f : A → Proc C B)
      → ((a : A) → r ≡ ok a → Ends (f a))
      → Ends (of_result r >>= f)
  unfolding of_result ◌>>=◌
  Ends-of_result (ok a) f later = record { done = λ s. (later a refl).done s }
  Ends-of_result (throw e) f later = record { done = λ s. tt }
  Ends-of_result (fault x) f later = record { done = λ s. tt }

advance_shorter :
    (n : ℕ) (s next : Text) → advance (suc n) s ≡ ok next → suc (length next) ≤ length s
unfolding advance
advance_shorter n [] next h = absurd (grind arith)
advance_shorter zero (c ∷ s) next h =
    subst (λ t. suc (length t) ≤ suc (length s)) (ok-injective h) (omega arith)
advance_shorter (suc n) (c ∷ s) next h = omega (arith, advance_shorter n s next h)

module _ (win : WinHttp) (crypt : WinCrypt) {C : Type 0} where
  Ends-call : (c : Call) → Ends (call win {C = C} c)
  unfolding call ◌>>=◌ note
  Ends-call c = record { done = λ s. (Ends-of_answer (win.answer s.history c)).done _ }

  add_certificate-Ends : (pos : Text) → Ends (add_certificate win crypt {C = C} pos)
  unfolding add_certificate
  add_certificate-Ends pos = Ends-bind (Ends-note (released decoded)) (λ _.
      Ends-bind (Ends-ask (decode_size pos) (λ h. crypt.text_size h pos)) (λ size.
        Ends-bind (Ends-note (acquired decoded)) (λ _.
          Ends-bind (Ends-ask (decode pos) (λ h. crypt.text_bytes h pos)) (λ bytes.
            Ends-bind (Ends-call (create_context bytes)) (λ _.
              Ends-bind (Ends-acquire chain_context) (λ _.
                Ends-bind (Ends-call (add_context bytes)) (λ _.
                  Ends-bind (Ends-release_null chain_context) (λ _. Ends-proceed size.1))))))))

  found_Ends :
      {g : Text → Proc C (Unit {0})} (next : Text)
      → ((found : Text) → length found ≤ length next → Ends (g found))
      → Ends (chain_or_done win crypt g (strstr next begin_certificate))
  found_Ends next later = elim (strstr-places next) [
    | inl (e, l) ↦ rw e (Ends-proceed tt)
    | inr f ↦ rw f.found (later (f.first ∷ f.rest) f.shorter)
  ]

  -- For every system, and wherever it says that a certificate begins, the loop over the chain ends
  -- within one more round than the text has bytes.
  pub load_chain-Ends :
      (fuel : ℕ) (pos : Text) (skip : ℕ)
      → length pos < fuel
      → Ends (load_chain win crypt {C = C} fuel pos skip)
  unfolding load_chain
  load_chain-Ends zero pos skip h = absurd (omega (arith, h))
  load_chain-Ends (suc fuel) pos skip h = Ends-of_result (advance (skip + 1) pos) _ (λ next e.
      found_Ends next (λ found f.
        let one_more : suc skip ≡ skip + 1 = omega arith in
        let behind = advance_shorter skip pos next (ap (λ n. advance n pos) one_more ∙ e) in
        Ends-bind (add_certificate-Ends found)
          (λ skipped. load_chain-Ends fuel found skipped (omega (arith, h, f, behind)))))
