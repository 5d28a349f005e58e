-- ===== src/Ddi/Poll/Loop/Keeps.antt =====
-- What the loop of `run` keeps of a session.
use up2date_cpp.Base.{ℕ, zero, suc, true, false, List, [], ◌∷◌, if◌then◌else◌}
use up2date_cpp.Json.{RapidJson}
use up2date_cpp.Ddi.State.{Client, Signal, apply_signal}
use up2date_cpp.Ddi.Session.Monad.{Environment, Session, pure, gets, asks, emit, modify, slept}
use up2date_cpp.Ddi.Session.Requests.{ask_auth}
use up2date_cpp.Ddi.Session.Keeps.{
  Keeps, with_client, keeps_rules, Keeps-pure, Keeps-gets, Keeps-asks, Keeps-if, Keeps-bind,
  Keeps-modify,
}
use up2date_cpp.Ddi.Session.Keeps.Calls.{emit-Keeps, ask_auth-Keeps}
use up2date_cpp.Ddi.Poll.Keeps.{KeptByPolls, do_poll-Keeps}
use up2date_cpp.Ddi.Poll.Loop.{
  apply_signals, sleep_second, sleep_seconds, sleep_between, poll_round, poll_loop, run,
}

-- The end of a request to poll, and the start of the loop.
abbrev pub polled : Client → Client
polled c = record c { poll_requested = false }

abbrev pub started : Client → Client
started c = record c { is_running = true }

module _ (json : RapidJson) (env : Environment) {P : Session → Type 0} (kept : KeptByPolls P) where
  signals_kept :
      (xs : List Signal) (s : Session) → P s → P (with_client (apply_signals xs s.client) s)
  unfolding apply_signals
  signals_kept [] s h = h
  signals_kept (x ∷ xs) s h =
      signals_kept xs (with_client (apply_signal x s.client) s) (kept.by_calls.by_signal x s h)

  sleep_second-Keeps : Keeps P (sleep_second env)
  unfolding sleep_second
  sleep_second-Keeps = Keeps-bind (asks _) _ (Keeps-asks _) (λ xs.
      Keeps-bind (emit slept) _ (emit-Keeps env kept.by_calls slept tt)
        (λ _. Keeps-modify _ (signals_kept xs)))

  sleep_seconds-Keeps : (n : ℕ) → Keeps P (sleep_seconds env n)
  unfolding sleep_seconds
  sleep_seconds-Keeps zero = Keeps-pure tt
  sleep_seconds-Keeps (suc n) = Keeps-bind (gets _) _ (Keeps-gets _) (λ woken.
      Keeps-if woken _ _ (Keeps-pure tt)
        (Keeps-bind (sleep_second env) _ sleep_second-Keeps (λ _. sleep_seconds-Keeps n)))

  pub sleep_between-Keeps : Keeps P (sleep_between env)
  unfolding sleep_between
  sleep_between-Keeps = search (keeps_rules, sleep_seconds-Keeps)

  module _ (by_polled : (s : Session) → P s → P (with_client (polled s.client) s)) where
    pub poll_round-Keeps : Keeps P (poll_round env json)
    unfolding poll_round
    poll_round-Keeps = Keeps-bind (modify _) _ (Keeps-modify _ (kept.by_ignore false)) (λ _.
        Keeps-bind _ _ (do_poll-Keeps json env kept)
          (λ _. Keeps-bind (modify _) _ (Keeps-modify _ by_polled) (λ _. sleep_between-Keeps)))

    poll_loop-Keeps : (fuel : ℕ) → Keeps P (poll_loop env json fuel)
    unfolding poll_loop
    poll_loop-Keeps zero = Keeps-pure _
    poll_loop-Keeps (suc fuel) = Keeps-bind (gets _) _ (Keeps-gets _) (λ running.
        Keeps-if running _ _
          (Keeps-bind (poll_round env json) _ poll_round-Keeps (λ _. poll_loop-Keeps fuel))
          (Keeps-pure _))

    module _ (by_started : (s : Session) → P s → P (with_client (started s.client) s)) where
      pub run-Keeps : (fuel : ℕ) → Keeps P (run env json fuel)
      unfolding run
      run-Keeps fuel = Keeps-bind (gets _) _ (Keeps-gets _) (λ uri.
          Keeps-bind (gets _) _ (Keeps-gets _) (λ handler.
            Keeps-bind (if _ then ask_auth env _ handler else pure tt) _
              (Keeps-if _ _ _ (ask_auth-Keeps env kept.by_calls (λ n. tt) _ handler)
                (Keeps-pure tt))
              (λ _.
                Keeps-bind (modify _) _ (Keeps-modify _ by_started) (λ _. poll_loop-Keeps fuel))))
