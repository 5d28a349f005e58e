-- ===== src/Ddi/Poll/Loop/Lives.antt =====
-- The calls of a whole run: credentials at the start, whole polls, and sleeps.
use mathlib.Core.Path.{subst}
use up2date_cpp.Base.{
  ℕ, zero, suc, ◌≡◌, refl, ap, ◌∙◌, sym, Bool, true, false, Option, none, some, ◌∷◌, if◌then◌else◌,
}
use up2date_cpp.Outcome.{Exception, Result, ok, throw, fault}
use up2date_cpp.Json.{RapidJson}
use up2date_cpp.Ddi.State.{Client}
use up2date_cpp.Ddi.Session.Monad.{
  auth_asked, slept, History, Environment, Session, M, pure, lift, gets, asks, emit, modify,
  continue, ◌>>=◌,
}
use up2date_cpp.Ddi.Session.Requests.{run_restore, ask_auth}
use up2date_cpp.Ddi.Session.Retry.{run_restore-history, with_asked}
use up2date_cpp.Ddi.Poll.{do_poll}
use up2date_cpp.Ddi.Poll.Loop.{
  sleep_second, sleep_seconds, sleep_between, poll_round, poll_loop, run,
}

module _ (json : RapidJson) (env : Environment) where
  -- What stands before the first poll: nothing, or a call for credentials.
  pub data Opens (start : History) : History → Type 0 where
    fresh : Opens start start
    asked_first : (n : ℕ) → Opens start (auth_asked n ∷ start)

  -- The histories of a run that goes on: the first poll is behind the opening, and from then on
  -- there are polls, each of which returned, and sleeps.
  pub data Lives (start : History) : History → Type 0 where
    opened : {h : History} → Opens start h → Lives start h
    polled :
        (s t : Session)
        → Lives start s.history
        → do_poll json env s ≡ (ok tt, t)
        → Lives start t.history
    slept_on : {h : History} → Lives start h → Lives start (slept ∷ h)

  -- The end of a run that broke off in the session `t` with the outcome `r`: before its first poll,
  -- or with the outcome and the session of a poll.
  pub data Breaks (start : History) (r : Result (Unit {0})) (t : Session) : Type 0 where
    in_opening : Opens start t.history → Breaks start r t
    in_poll : (s : Session) → Lives start s.history → do_poll json env s ≡ (r, t) → Breaks start r t

  abbrev pub RunEnds : {A : Type 0} → History → Result A × Session → Type 0
  RunEnds start (ok a, t) = Lives start t.history
  RunEnds start (throw e, t) = Breaks start (throw e) t
  RunEnds start (fault x, t) = Breaks start (fault x) t

module _ (json : RapidJson) (env : Environment) (start : History) where
  module _ {A : Type 0} where
    record Living (action : M A) : Type 0 where
      ends : (s : Session) → Lives json env start s.history → RunEnds json env start (action s)

    -- An opening of the run.
    opens_at :
        {h : History} (r : Result A × Session)
        → r.1.history ≡ h
        → Opens json env start h
        → RunEnds json env start r
    opens_at (ok a, s) e o = opened (subst (Opens json env start) (sym e) o)
    opens_at (throw x, s) e o = in_opening (subst (Opens json env start) (sym e) o)
    opens_at (fault x, s) e o = in_opening (subst (Opens json env start) (sym e) o)

    Living-pure : (a : A) → Living (pure a)
    unfolding pure
    Living-pure a = record { ends = λ s l. l }

    Living-gets : (read : Client → A) → Living (gets read)
    unfolding gets
    Living-gets read = record { ends = λ s l. l }

    Living-asks : (answer : History → A) → Living (asks answer)
    unfolding asks
    Living-asks answer = record { ends = λ s l. l }

    Living-if : (b : Bool) (m n : M A) → Living m → Living n → Living (if b then m else n)
    Living-if true m n k l = k
    Living-if false m n k l = l

  Living-modify : (change : Client → Client) → Living (modify change)
  unfolding modify
  Living-modify change = record { ends = λ s l. l }

  module _ {A B : Type 0} where
    continue-RunEnds :
        (next : A → M B) (first : Result A × Session)
        → RunEnds json env start first
        → ((a : A) → Living (next a))
        → RunEnds json env start (continue next first)
    continue-RunEnds next (ok a, s) l k = (k a).ends s l
    continue-RunEnds next (throw e, s) b k = b
    continue-RunEnds next (fault x, s) b k = b

    Living-bind :
        (first : M A) (next : A → M B)
        → Living first
        → ((a : A) → Living (next a))
        → Living (first >>= next)
    unfolding ◌>>=◌
    Living-bind first next l k = record {
      ends = λ s alive. continue-RunEnds next (first s) (l.ends s alive) k;
    }

  ruleset living_rules =
      (Living-pure, Living-gets, Living-asks, Living-if, Living-modify, Living-bind)

  polled_ends :
      (s : Session) (r : Result (Unit {0}) × Session)
      → Lives json env start s.history
      → do_poll json env s ≡ r
      → RunEnds json env start r
  polled_ends s (ok a, t) l e = polled s t l e
  polled_ends s (throw x, t) l e = in_poll s l e
  polled_ends s (fault x, t) l e = in_poll s l e

  do_poll-Living : Living (do_poll json env)
  do_poll-Living = record { ends = λ s l. polled_ends s (do_poll json env s) l refl }

  emit_slept : Living (emit slept)
  unfolding emit
  emit_slept = record { ends = λ s l. slept_on l }

  sleep_second-Living : Living (sleep_second env)
  unfolding sleep_second
  sleep_second-Living = search (living_rules, emit_slept)

  sleep_seconds-Living : (n : ℕ) → Living (sleep_seconds env n)
  unfolding sleep_seconds
  sleep_seconds-Living zero = Living-pure tt
  sleep_seconds-Living (suc n) = Living-bind (gets _) _ (Living-gets _) (λ woken.
      Living-if woken _ _ (Living-pure tt)
        (Living-bind (sleep_second env) _ sleep_second-Living (λ _. sleep_seconds-Living n)))

  sleep_between-Living : Living (sleep_between env)
  unfolding sleep_between
  sleep_between-Living = search (living_rules, sleep_seconds-Living)

  poll_round-Living : Living (poll_round env json)
  unfolding poll_round
  poll_round-Living = search (living_rules, do_poll-Living, sleep_between-Living)

  poll_loop-Living : (fuel : ℕ) → Living (poll_loop env json fuel)
  unfolding poll_loop
  poll_loop-Living zero = Living-pure _
  poll_loop-Living (suc fuel) = Living-bind (gets _) _ (Living-gets _) (λ running.
      Living-if running _ _
        (Living-bind (poll_round env json) _ poll_round-Living (λ _. poll_loop-Living fuel))
        (Living-pure _))

  -- Credentials that are asked for before the first poll.
  ask_auth_first :
      (e : Exception) (handler : Option ℕ) (s : Session)
      → s.history ≡ start
      → RunEnds json env start (ask_auth env e handler s)
  unfolding ask_auth lift asks emit ◌>>=◌
  ask_auth_first e none s same = opens_at {A = Unit {0}} (throw e, s) same fresh
  ask_auth_first e (some n) s same =
      opens_at (run_restore env (env.on_auth_error n s.history) (with_asked env n s))
        (run_restore-history env (env.on_auth_error n s.history) (with_asked env n s)
          ∙ ap (λ h. auth_asked n ∷ h) same)
        (asked_first n)

  start_ends :
      (b : Bool) (e : Exception) (handler : Option ℕ) (s : Session)
      → s.history ≡ start
      → RunEnds json env start ((if b then ask_auth env e handler else pure tt) s)
  unfolding pure
  start_ends true e handler s same = ask_auth_first e handler s same
  start_ends false e handler s same = opens_at (ok tt, s) same fresh

  run_from :
      (fuel : ℕ) (s : Session) → s.history ≡ start → RunEnds json env start (run env json fuel s)
  unfolding run gets ◌>>=◌
  run_from fuel s same =
      continue-RunEnds _ _ (start_ends _ _ s.client.auth_error_handler s same)
        (λ _. Living-bind (modify _) _ (Living-modify _) (λ _. poll_loop-Living fuel))

module _ (json : RapidJson) (env : Environment) where
  -- However a run ends, and whatever the servers answer and the handlers call: a handler is asked
  -- for credentials at most once before the first poll; then there are whole polls, with nothing
  -- but sleeps between them. An exception or a fault comes before the first poll, where no more
  -- than that handler was called, or it is the outcome of a poll, and the session is the one that
  -- this poll left: neither the sleeps nor the loop itself end a run so.
  pub run-RunEnds : (fuel : ℕ) (s : Session) → RunEnds json env s.history (run env json fuel s)
  run-RunEnds fuel s = run_from json env s.history fuel s refl
