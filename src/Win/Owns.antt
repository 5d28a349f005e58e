-- ===== src/Win/Owns.antt =====
-- The pointers of a function in C against the resources that it acquired and released: a rule for
-- each way to build a function.
use mathlib.Core.Path.{subst}
use up2date_cpp.Base.{
  ℕ, ◌+◌, ◌≡◌, ◌∙◌, ap, Bool, true, false, inl, inr, Bool-cases, ◌∷◌, if◌then◌else◌, arith,
}
use up2date_cpp.Win.Api.{
  Resource, number, same, WinEvent, acquired, released, called, status_asked, available_asked,
  read_asked, WinHistory, Pointers, assigned, WinState, Answer, got, failed, Jump, go, clean_with,
  thrown, crashed, unfinished, Proc, and_then, ◌>>=◌, proceed, goto_clean, note, acquire, of_answer,
  acquired_count, released_count,
}

-- An event that neither gives nor takes a resource.
abbrev IsPlain : WinEvent → Type 0
IsPlain (acquired r) = ⊥
IsPlain (released r) = ⊥
IsPlain _ = Unit

module _ (mine : ℕ → Bool) (q : Resource) (start : WinHistory) {C : Type 0} where
  -- Since the start the resource was acquired as often as it was released, and once more if its
  -- pointer is set; the pointers of other functions are null.
  pub record Owns (s : WinState C) : Type 0 where
    pub counts :
        acquired_count q s.history + released_count q start
        ≡ released_count q s.history
          + acquired_count q start
          + (if s.pointers (number q) then 1 else 0)
    pub others : mine (number q) ≡ false → s.pointers (number q) ≡ false

  -- Where a statement goes on, its pointers are known; where it jumps, the label sees an owner.
  abbrev pub EndsIn : {A : Type 0} → Pointers → Jump A × WinState C → Type 0
  EndsIn p (go a, t) = (t.pointers ≡ p) × Owns t
  EndsIn p (clean_with code, t) = Owns t
  EndsIn p _ = Unit

  pub record Step {A : Type 0} (p : Pointers) (m : Proc C A) (p' : Pointers) : Type 0 where
    pub at : (s : WinState C) → s.pointers ≡ p → Owns s → EndsIn p' (m s)

  EndsIn-and_then :
      {A B : Type 0} (p p' : Pointers) (r : Jump A × WinState C) (f : A → Proc C B)
      → EndsIn p r
      → ((a : A) → Step p (f a) p')
      → EndsIn p' (and_then r f)
  EndsIn-and_then p p' (go a, t) f (e, o) later = (later a).at t e o
  EndsIn-and_then p p' (clean_with code, t) f o later = o
  EndsIn-and_then p p' (thrown x, t) f o later = tt
  EndsIn-and_then p p' (crashed x, t) f o later = tt
  EndsIn-and_then p p' (unfinished, t) f o later = tt

  pub Step-bind :
      {A B : Type 0} {p p' p'' : Pointers} {m : Proc C A} {f : A → Proc C B}
      → Step p m p'
      → ((a : A) → Step p' (f a) p'')
      → Step p (m >>= f) p''
  unfolding ◌>>=◌
  Step-bind {p'} {p''} {m} {f} first later = record {
    at = λ s e o. EndsIn-and_then p' p'' (m s) f (first.at s e o) later;
  }

  pub Step-proceed : {A : Type 0} {p : Pointers} (a : A) → Step p (proceed a) p
  unfolding proceed
  Step-proceed a = record { at = λ s e o. (e, o) }

  pub Step-goto_clean :
      {A : Type 0} {p p' : Pointers} (code : ℕ) → Step p (goto_clean {A = A} code) p'
  unfolding goto_clean
  Step-goto_clean code = record { at = λ s e o. o }

  pub Step-if :
      {A : Type 0} {p p' : Pointers} {m n : Proc C A} (b : Bool)
      → Step p m p'
      → Step p n p'
      → Step p (if b then m else n) p'
  Step-if true m n = m
  Step-if false m n = n

  acquired_Owns :
      (r : Resource) (s : WinState C)
      → mine (number r) ≡ true
      → s.pointers (number r) ≡ false
      → Owns s
      → Owns (record s { pointers = assigned r s.pointers; history = acquired r ∷ s.history })
  acquired_Owns r s h n o = elim (Bool-cases (same r q)) [
    | inl it ↦
        let e : number r ≡ number q = ground (arith, it) in
        let free : s.pointers (number q) ≡ false = subst (λ k. s.pointers k ≡ false) e n in
        let own : mine (number q) ≡ true = subst (λ k. mine k ≡ true) e h in
        record { counts = ground (arith, o.counts); others = λ x. absurd (ground arith) }
    | inr other ↦ record { counts = ground (arith, o.counts); others = ground (arith, o.others) }
  ]

  pub Step-acquire :
      {p : Pointers} (r : Resource)
      → mine (number r) ≡ true
      → p (number r) ≡ false
      → Step p (acquire r) (assigned r p)
  unfolding acquire
  Step-acquire {p} r h n = record {
    at = λ s e o. (ap (assigned r) e, acquired_Owns r s h (ap (λ f. f (number r)) e ∙ n) o);
  }

  Owns-plain :
      (x : WinEvent) (s : WinState C)
      → IsPlain x
      → Owns s
      → Owns (record s { history = x ∷ s.history })
  Owns-plain (acquired r) s h o = absurd h
  Owns-plain (released r) s h o = absurd h
  Owns-plain (called c) s h o = record { counts = o.counts; others = o.others }
  Owns-plain status_asked s h o = record { counts = o.counts; others = o.others }
  Owns-plain available_asked s h o = record { counts = o.counts; others = o.others }
  Owns-plain (read_asked n) s h o = record { counts = o.counts; others = o.others }

  pub Step-note : {p : Pointers} (x : WinEvent) → IsPlain x → Step p (note x) p
  unfolding note
  Step-note x h = record { at = λ s e o. (e, Owns-plain x s h o) }

  pub Step-of_answer : {A : Type 0} {p : Pointers} (a : Answer A) → Step p (of_answer a) p
  Step-of_answer (got a) = Step-proceed a
  Step-of_answer (failed code) = Step-goto_clean code

  -- A statement that asks the system.
  pub Step-asking :
      {A : Type 0} {p p' : Pointers} (f : WinState C → Proc C A)
      → ((s : WinState C) → Step p (f s) p')
      → Step p (λ s. f s s) p'
  Step-asking f steps = record { at = λ s e o. (steps s).at s e o }
