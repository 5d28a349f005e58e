-- ===== src/Ddi/Poll/Loop/Sleeps.antt =====
-- How long the client sleeps between two polls, and what wakes it.
use up2date_cpp.Base.{ℕ, zero, suc, ◌≤◌, ◌≡◌, ◌⊎◌, true, ◌∷◌}
use up2date_cpp.Outcome.{Result, ok}
use up2date_cpp.Ddi.Session.Monad.{slept, History, Environment, Session}
use up2date_cpp.Ddi.Poll.Loop.{is_woken, apply_signals}

-- A number of seconds at the end of the history.
abbrev pub slept_for : ℕ → History → History
slept_for zero h = h
slept_for (suc k) h = slept_for k (slept ∷ h)

-- A sleep of at most `n` seconds that went on for `seconds`, and was cut short only by `stop` or
-- `requestToPoll`.
pub record SleepsFor (n : ℕ) (s : Session) (r : Result (Unit {0}) × Session) : Type 0 where
  pub returns : r.0 ≡ ok tt
  pub seconds : ℕ
  pub seconds-le : seconds ≤ n
  pub history_is : r.1.history ≡ slept_for seconds s.history
  pub woken : (seconds ≡ n) ⊎ (is_woken r.1.client ≡ true)

module _ (env : Environment) where
  -- One second is one event, and the signals of the other threads are applied.
  abbrev after_second : Session → Session
  after_second s = record {
    client = apply_signals (env.while_asleep s.history) s.client;
    history = slept ∷ s.history;
  }
