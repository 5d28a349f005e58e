-- ===== src/Ddi/Session/Sound/Rules.antt =====
-- What a result may be: a rule for each way to build an action.
use up2date_cpp.Base.{◌≡◌, Bool, true, false, some, if◌then◌else◌}
use up2date_cpp.Outcome
use up2date_cpp.Outcome.{Result, ok, throw, fault, is_success}
use up2date_cpp.Ddi.State.{Client}
use up2date_cpp.Ddi.Session.Monad.{
  Event, History, Reply, HttpResult, Session, M, pure, lift, gets, asks, emit, continue, ◌>>=◌,
}

-- A value with a property, or an exception; no fault.
abbrev pub Fine : {A : Type 0} → (A → Type 0) → Result A → Type 0
Fine Q (ok a) = Q a
Fine Q (throw e) = Unit {0}
Fine Q (fault x) = ⊥

-- From any session, an action that returns gives a value with the property, and none ends in a
-- fault.
pub record Gives {A : Type 0} (Q : A → Type 0) (action : M A) : Type 0 where
  pub fine : (s : Session) → Fine Q (action s).0

abbrev pub Anything : {A : Type 0} → A → Type 0
Anything a = Unit {0}

-- A response is there whenever the error is Success.
abbrev pub Complete : HttpResult → Type 0
Complete r = is_success r.error ≡ true → (response : Reply) × (r.response ≡ some response)

pub Gives-emit : (e : Event) → Gives Anything (emit e)
unfolding emit
Gives-emit e = record { fine = λ s. tt }

module _ {A : Type 0} {Q : A → Type 0} where
  pub Gives-pure : (a : A) → Q a → Gives Q (pure a)
  unfolding pure
  Gives-pure a q = record { fine = λ s. q }

  pub Gives-lift : (r : Result A) → Fine Q r → Gives Q (lift r)
  unfolding lift
  Gives-lift r f = record { fine = λ s. f }

  pub Gives-gets : (read : Client → A) → ((c : Client) → Q (read c)) → Gives Q (gets read)
  unfolding gets
  Gives-gets read q = record { fine = λ s. q s.client }

  pub Gives-asks : (answer : History → A) → ((h : History) → Q (answer h)) → Gives Q (asks answer)
  unfolding asks
  Gives-asks answer q = record { fine = λ s. q s.history }

  pub Gives-if : (b : Bool) (m n : M A) → Gives Q m → Gives Q n → Gives Q (if b then m else n)
  Gives-if true m n g h = g
  Gives-if false m n g h = h

-- Of a value with any property, or none.
pub Fine-bind :
    {A B : Type 0} (r : Result A) (next : A → Result B)
    → Fine Anything r
    → ((a : A) → Fine Anything (next a))
    → Fine Anything (Outcome.◌>>=◌ r next)
Fine-bind (ok a) next f k = k a
Fine-bind (throw e) next f k = tt
Fine-bind (fault x) next f k = f

module _ {A B : Type 0} {Q : A → Type 0} {R : B → Type 0} where
  continue-Fine :
      (next : A → M B) (first : Result A × Session)
      → Fine Q first.0
      → ((a : A) → Q a → Gives R (next a))
      → Fine R (continue next first).0
  continue-Fine next (ok a, s) f k = (k a f).fine s
  continue-Fine next (throw e, s) f k = tt
  continue-Fine next (fault x, s) f k = f

  pub Gives-bind :
      (first : M A) (next : A → M B)
      → Gives Q first
      → ((a : A) → Q a → Gives R (next a))
      → Gives R (first >>= next)
  unfolding ◌>>=◌
  Gives-bind first next g k = record { fine = λ s. continue-Fine next (first s) (g.fine s) k }
