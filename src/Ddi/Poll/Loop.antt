-- ===== src/Ddi/Poll/Loop.antt =====
-- `HawkbitCommunicationClient::run`: the start, the poll loop on fuel, and the sleep between two
-- polls, which goes second by second. Signals of other threads arrive while the client sleeps.
pub mod Keeps
pub mod Lives
pub mod Sleeps
pub mod Stopped
pub mod Stopping
pub mod Stops
use up2date_cpp.Base.{
  ℕ, zero, suc, ◌/◌, Bool, true, false, not, ◌&&◌, ◌||◌, Option, none, some, List, [], ◌∷◌,
  if◌then◌else◌,
}
use up2date_cpp.Base.Int.{ℤ, pos_part, is_positive}
use up2date_cpp.Text.{codes}
use up2date_cpp.Outcome.{Exception, throw, client_initialize_error}
use up2date_cpp.Uri.{is_empty_uri}
use up2date_cpp.Json.{RapidJson}
use up2date_cpp.Ddi.State.{Client, Signal, apply_signal}
use up2date_cpp.Ddi.Session.Monad.{
  slept, Environment, M, pure, gets, asks, ◌>>=◌, ◌>>◌, modify, emit,
}
use up2date_cpp.Ddi.Session.Requests.{ask_auth}
use up2date_cpp.Ddi.Poll.{do_poll}

-- `!isRunning || pollRequested`
abbrev pub is_woken : Client → Bool
is_woken c = not c.is_running || c.poll_requested

unfoldable pub apply_signals : List Signal → Client → Client
apply_signals [] c = c
apply_signals (x ∷ xs) c = apply_signals xs (apply_signal x c)

module _ (env : Environment) where
  -- `sleep_for(1000 ms)`
  unfoldable pub sleep_second : M (Unit {0})
  unfolding apply_signals apply_signal
  sleep_second = do signals ← asks env.while_asleep; emit slept; modify (apply_signals signals)

  -- The rounds left of the `for` loop.
  unfoldable pub sleep_seconds : ℕ → M (Unit {0})
  sleep_seconds zero = pure tt
  sleep_seconds (suc n) = do
    woken ← gets is_woken
    let rest = sleep_second >> sleep_seconds n
    if woken then pure tt else rest

  -- `currentSleepTime/1000` rounds, of a time that is positive.
  unfoldable pub sleep_between : M (Unit {0})
  unfolding sleep_seconds
  sleep_between = do
    ignored ← gets (λ c. c.ignore_sleep)
    time ← gets (λ c. c.current_sleep_time)
    if not ignored && is_positive time then sleep_seconds (pos_part time / 1000) else pure tt

  module _ (json : RapidJson) where
    -- One round of the `while` loop.
    unfoldable pub poll_round : M (Unit {0})
    unfolding sleep_between
    poll_round = do
      modify (λ c. record c { ignore_sleep = false })
      do_poll json env
      modify (λ c. record c { poll_requested = false })
      sleep_between

    -- `while (isRunning)`; `none` means that the fuel ran out.
    unfoldable pub poll_loop : ℕ → M (Option (Unit {0}))
    poll_loop zero = pure none
    poll_loop (suc fuel) = do
      running ← gets (λ c. c.is_running)
      let rest = poll_round >> poll_loop fuel
      if running then rest else pure (some tt)

    -- `run`
    unfoldable pub run : ℕ → M (Option (Unit {0}))
    unfolding is_empty_uri
    run fuel = do
      uri ← gets (λ c. c.hawkbit_uri)
      handler ← gets (λ c. c.auth_error_handler)
      let missing : Exception =
          client_initialize_error (codes "endpoint or AuthErrorHandler is not set")
      if is_empty_uri uri then ask_auth env missing handler else pure tt
      modify (λ c. record c { is_running = true })
      poll_loop fuel
