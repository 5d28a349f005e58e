-- ===== src/Ddi/Poll/Loop/Stopped.antt =====
-- A client that is stopped while it polls.
use up2date_cpp.Base.{
  ℕ, zero, suc, ◌≡◌, refl, ◌∙◌, ap, true, false, not, ◌||◌, ◌&&◌, inl, inr, Bool-cases, some,
}
use up2date_cpp.Base.Int.{is_positive}
use up2date_cpp.Outcome.{ok}
use up2date_cpp.Json.{RapidJson}
use up2date_cpp.Ddi.Session.Monad.{
  Environment, Session, continue, ◌>>=◌, gets, modify, pure, if_true,
}
use up2date_cpp.Ddi.Session.Keeps.{with_client}
use up2date_cpp.Ddi.Poll.{do_poll}
use up2date_cpp.Ddi.Poll.Keeps.{with_ignore}
use up2date_cpp.Ddi.Poll.Sends.{bind_ok}
use up2date_cpp.Ddi.Poll.Loop.{is_woken, sleep_seconds, sleep_between, poll_round, poll_loop}
use up2date_cpp.Ddi.Poll.Loop.Keeps.{polled}
use up2date_cpp.Ddi.Poll.Loop.Stops.{loop_stopped, loop_round}

module _ (env : Environment) (s : Session) (off : s.client.is_running ≡ false) where
  is_woken_off : is_woken s.client ≡ true
  is_woken_off = ap (λ b. not b || s.client.poll_requested) off

  sleep_seconds_off : (n : ℕ) → sleep_seconds env n s ≡ (ok tt, s)
  unfolding sleep_seconds pure gets ◌>>=◌
  sleep_seconds_off zero = refl
  sleep_seconds_off (suc n) = if_true (is_woken s.client) _ _ s is_woken_off

  sleep_between_off : sleep_between env s ≡ (ok tt, s)
  unfolding sleep_between gets ◌>>=◌
  sleep_between_off =
      elim (Bool-cases (not s.client.ignore_sleep && is_positive s.client.current_sleep_time)) [
        | inl asleep ↦ rw asleep (sleep_seconds_off _)
        | inr awake ↦ rw awake (unfold pure in refl)
      ]

module _ (json : RapidJson) (env : Environment) (s t : Session) where
  -- A client that is stopped while it polls, by a handler or by another thread, polls no more: the
  -- loop ends in the session of that poll, without a sleep or a request, where two rounds of fuel
  -- are left or more.
  pub poll_loop_stopped :
      (fuel : ℕ)
      → s.client.is_running ≡ true
      → do_poll json env (with_client (with_ignore false s.client) s) ≡ (ok tt, t)
      → t.client.is_running ≡ false
      → poll_loop env json (suc (suc fuel)) s ≡ (ok (some tt), with_client (polled t.client) t)
  unfolding poll_round modify
  poll_loop_stopped fuel on polls off =
      let ended = with_client (polled t.client) t in
      loop_round json env (suc fuel) s on
      ∙ ap (continue (λ _. poll_loop env json (suc fuel))) (
          bind_ok (modify _) _ refl
          ∙ bind_ok (do_poll json env) _ polls
          ∙ bind_ok (modify _) _ refl
          ∙ sleep_between_off env ended off)
      ∙ loop_stopped json env fuel ended off
