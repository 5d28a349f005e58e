-- ===== src/Ddi/Session/Keeps.antt =====
-- Properties of a session that every action keeps, however it ends: a rule for each way to build
-- an action.
pub mod Calls
use up2date_cpp.Base.{ℕ, ◌≡◌, Bool, true, false, ◌∷◌, if◌then◌else◌}
use up2date_cpp.Text.{Text}
use up2date_cpp.Outcome.{Result, ok, throw, fault}
use up2date_cpp.Ddi.State.{Client, RestoreCall, apply_restore, Signal, apply_signal}
use up2date_cpp.Ddi.Session.Monad.{
  Event, Request, get, get_stream, requested, auth_asked, file_opened, file_written, received,
  History, Session, M, pure, lift, gets, asks, modify, emit, continue, ◌>>=◌,
}

-- Whatever the outcome, the session that an action leaves has the property.
pub record Keeps {A : Type 0} (P : Session → Type 0) (action : M A) : Type 0 where
  pub at : (before : Session) → P before → P (action before).1

-- The session behind a call out of the library, and with another client.
abbrev pub told : Event → Session → Session
told event s = record s { history = event ∷ s.history }

abbrev pub with_client : Client → Session → Session
with_client c s = record s { client = c }

module _ {P : Session → Type 0} where
  pub Keeps-modify :
      (change : Client → Client)
      → ((s : Session) → P s → P (with_client (change s.client) s))
      → Keeps P (modify change)
  unfolding modify
  Keeps-modify change kept = record { at = kept }

  pub Keeps-emit : (event : Event) → ((s : Session) → P s → P (told event s)) → Keeps P (emit event)
  unfolding emit
  Keeps-emit event kept = record { at = kept }

module _ {A : Type 0} {P : Session → Type 0} where
  pub Keeps-asks : (answer : History → A) → Keeps P (asks answer)
  unfolding asks
  Keeps-asks answer = record { at = λ before start. start }

  pub Keeps-gets : (read : Client → A) → Keeps P (gets read)
  unfolding gets
  Keeps-gets read = record { at = λ before start. start }

  pub Keeps-pure : (value : A) → Keeps P (pure value)
  unfolding pure
  Keeps-pure value = record { at = λ before start. start }

  pub Keeps-lift : (outcome : Result A) → Keeps P (lift outcome)
  unfolding lift
  Keeps-lift outcome = record { at = λ before start. start }

  pub Keeps-if : (test : Bool) (m n : M A) → Keeps P m → Keeps P n → Keeps P (if test then m else n)
  Keeps-if false m n kept_then kept_else = kept_else
  Keeps-if true m n kept_then kept_else = kept_then

module _ {A B : Type 0} {P : Session → Type 0} where
  continue-Keeps :
      (next : A → M B) (first : Result A × Session)
      → ((a : A) → Keeps P (next a))
      → P first.1
      → P (continue next first).1
  continue-Keeps next (fault cause, s) kept start = start
  continue-Keeps next (throw error, s) kept start = start
  continue-Keeps next (ok value, s) kept start = (kept value).at s start

  pub Keeps-bind :
      (first : M A) (next : A → M B)
      → Keeps P first
      → ((a : A) → Keeps P (next a))
      → Keeps P (first >>= next)
  unfolding ◌>>=◌
  Keeps-bind first next kept_first kept_next = record {
    at = λ before start. continue-Keeps next (first before) kept_next (kept_first.at before start);
  }

pub ruleset keeps_rules = (Keeps-pure, Keeps-lift, Keeps-gets, Keeps-asks, Keeps-if, Keeps-bind)

-- What every method of `AuthRestoreHandler` that succeeds keeps, `stop` and `requestToPoll`, and
-- the calls out of the library that are allowed.
pub record KeptByCalls (Allowed : Event → Type 0) (P : Session → Type 0) : Type 0 where
  pub by_event : (event : Event) (s : Session) → Allowed event → P s → P (told event s)
  pub by_restore :
      (k : RestoreCall) (s : Session) (d : Client)
      → P s
      → apply_restore k s.client ≡ ok d
      → P (with_client d s)
  pub by_signal : (x : Signal) (s : Session) → P s → P (with_client (apply_signal x s.client) s)

-- The calls out of the library that a handler makes by its downloads, each on behalf of a URI.
pub data FetchEvent : Event → Type 0 where
  fetch_asked : (n : ℕ) → FetchEvent (auth_asked n)
  fetch_sent : (r : Request) → r.method ≡ get → FetchEvent (requested r)
  fetch_streamed : (r : Request) → r.method ≡ get_stream → FetchEvent (requested r)
  fetch_opened : (path : Text) → FetchEvent (file_opened path)
  fetch_written : (path piece : Text) → FetchEvent (file_written path piece)
  fetch_received : (piece : Text) → FetchEvent (received piece)
