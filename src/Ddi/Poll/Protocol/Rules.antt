-- ===== src/Ddi/Poll/Protocol/Rules.antt =====
-- Rules for actions that go from a phase of a poll to another one, or end on the way.
use up2date_cpp.Base.{◌≡◌, refl, Option, some}
use up2date_cpp.Outcome.{Result, ok, throw, fault}
use up2date_cpp.Json.{RapidJson}
use up2date_cpp.Uri.{Uri}
use up2date_cpp.Ddi.Session.Monad.{
  Connection, HttpResult, Reply, Request, Environment, History, Session, M, lift, modify, continue,
  ◌>>=◌,
}
use up2date_cpp.Ddi.Session.Requests.{retry_handler}
use up2date_cpp.Ddi.Session.Exchange.{Exchange, Exchanges, SendsOnce, retry_handler-Exchanges}
use up2date_cpp.Ddi.State.{Client}
use up2date_cpp.Ddi.Poll.Protocol.{Phase, Reaches, Follows, PollEnds}

module _ (json : RapidJson) (env : Environment) (start : Session) where
  -- A session in a phase of the poll.
  abbrev pub In : Phase → Session → Type 0
  In p s = Reaches json env start p s.history

  module _ {A : Type 0} where
    -- An action that returned is in the phase of its value; one that did not has followed the
    -- protocol.
    abbrev pub Ended : (A → Phase) → Result A × Session → Type 0
    Ended q (ok a, s) = In (q a) s
    Ended q (throw e, s) = Follows json env start s.history
    Ended q (fault x, s) = Follows json env start s.history

    -- From a phase to another one, where the action returns.
    pub record Goes (p : Phase) (q : A → Phase) (action : M A) : Type 0 where
      pub ends : (s : Session) → In p s → Ended q (action s)

    -- From a phase on, however the action ends.
    pub record Polls (p : Phase) (action : M A) : Type 0 where
      pub follows : (s : Session) → In p s → PollEnds json env start (action s)

  -- A call of `retryHandler` leads to the phase of its exchange.
  module _ (Asks : Request → Type 0) {p : Phase} (q : Option Reply → Phase)
      (enter : (o : Option Reply) (g h : History)
        → Reaches json env start p g
        → Exchange env Asks g o h
        → Reaches json env start (q o) h) where
    pub exchange_ends :
        (s : Session) (r : Result Reply × Session)
        → In p s
        → Exchanges env Asks s.history r
        → Ended (λ response. q (some response)) r
    exchange_ends s (ok response, t) h x = enter _ _ _ h x
    exchange_ends s (throw e, t) h x = record { phase = _; reached = enter _ _ _ h x }
    exchange_ends s (fault e, t) h x = record { phase = _; reached = enter _ _ _ h x }

    pub Goes-exchange :
        (u : Uri) (func : Connection → M HttpResult)
        → SendsOnce env Asks u func
        → Goes p (λ response. q (some response)) (retry_handler env u func)
    Goes-exchange u func sends = record {
      ends = λ s h. exchange_ends s _ h (retry_handler-Exchanges env Asks u func sends s);
    }

  module _ {A B : Type 0} where
    pub continue-Follows :
        {q : A → Phase} (next : A → M B) (first : Result A × Session)
        → Ended q first
        → ((a : A) → Polls (q a) (next a))
        → PollEnds json env start (continue next first)
    continue-Follows next (ok a, s) h g = (g a).follows s h
    continue-Follows next (throw e, s) f g = f
    continue-Follows next (fault x, s) f g = f

    pub Polls-bind :
        {p : Phase} {q : A → Phase} (first : M A) (next : A → M B)
        → Goes p q first
        → ((a : A) → Polls (q a) (next a))
        → Polls p (first >>= next)
    unfolding ◌>>=◌
    Polls-bind first next g k = record { follows = λ s h. continue-Follows next _ (g.ends s h) k }

  module _ {A B : Type 0} {p : Phase} where
    -- A result that is only looked at is there behind it.
    pub Polls-lift :
        (r : Result A) (next : A → M B)
        → ((a : A) → r ≡ ok a → Polls p (next a))
        → Polls p (lift r >>= next)
    unfolding ◌>>=◌ lift
    Polls-lift (ok a) next k = k a refl
    Polls-lift (throw e) next k = record { follows = λ s h. record { phase = _; reached = h } }
    Polls-lift (fault x) next k = record { follows = λ s h. record { phase = _; reached = h } }

  pub Polls-modified :
      {B : Type 0} {p : Phase} (change : Client → Client) (next : Unit {0} → M B)
      → Polls p (next tt)
      → Polls p (modify change >>= next)
  unfolding ◌>>=◌ modify
  Polls-modified change next k = record { follows = λ s h. k.follows _ h }

  module _ {A : Type 0} where
    changed_ends :
        (change : Client → Client) (first : Result A × Session)
        → PollEnds json env start first
        → PollEnds json env start (continue (λ _. modify change) first)
    unfolding modify
    changed_ends change (ok a, s) f = record { phase = _; reached = f.reached; whole = f.whole }
    changed_ends change (throw e, s) f = f
    changed_ends change (fault x, s) f = f

    -- A change of the client is no call.
    pub Polls-modify :
        {p : Phase} (first : M A) (change : Client → Client)
        → Polls p first
        → Polls p (first >>= λ _. modify change)
    unfolding ◌>>=◌
    Polls-modify first change g = record { follows = λ s h. changed_ends change _ (g.follows s h) }
