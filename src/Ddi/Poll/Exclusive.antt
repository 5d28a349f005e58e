-- ===== src/Ddi/Poll/Exclusive.antt =====
-- The credentials stay exclusive through a whole run, whatever the server answers and the handlers
-- do.
use mathlib.Core.Path.{subst}
use up2date_cpp.Base.{◌≡◌, ℕ}
use up2date_cpp.Outcome.{Result, ok}
use up2date_cpp.Json.{RapidJson}
use up2date_cpp.Ddi.State.{Client, apply_restore}
use up2date_cpp.Ddi.State.Credentials.{
  IsExclusive, OkIsExclusive, apply_restore-IsExclusive, apply_signal-IsExclusive,
}
use up2date_cpp.Ddi.Session.Monad.{Environment, Session}
use up2date_cpp.Ddi.Session.Keeps.{KeptByCalls}
use up2date_cpp.Ddi.Poll.{do_poll}
use up2date_cpp.Ddi.Poll.Keeps.{KeptByPolls, do_poll-Keeps}
use up2date_cpp.Ddi.Poll.Loop.{run}
use up2date_cpp.Ddi.Poll.Loop.Keeps.{run-Keeps}

OkIsExclusive-at : (r : Result Client) (d : Client) → OkIsExclusive r → r ≡ ok d → IsExclusive d
OkIsExclusive-at r d h e = subst OkIsExclusive e h

-- A session whose client has exclusive credentials; any call out of the library is allowed.
abbrev Exclusive : Session → Type 0
Exclusive s = IsExclusive s.client

Exclusive-kept : KeptByCalls (λ _. Unit {0}) Exclusive
Exclusive-kept = record {
  by_event = λ event s allowed h. h;
  by_restore = λ k s d h.
      OkIsExclusive-at (apply_restore k s.client) d (apply_restore-IsExclusive k s.client h);
  by_signal = λ x s h. apply_signal-IsExclusive x s.client h;
}

Exclusive-polls : KeptByPolls Exclusive
Exclusive-polls = record {
  by_calls = Exclusive-kept;
  by_ignore = λ b s h. record { sorted = h.sorted; exclusive = h.exclusive };
  by_time = λ time s h. record { sorted = h.sorted; exclusive = h.exclusive };
}

module _ (json : RapidJson) (env : Environment) where
  pub do_poll-IsExclusive :
      (s : Session) → IsExclusive s.client → IsExclusive (do_poll json env s).1.client
  do_poll-IsExclusive s h = (do_poll-Keeps json env Exclusive-polls).at s h

  -- A whole run, with every poll, request, retry, restore of credentials, callback, download and
  -- sleep in it, leaves the credentials exclusive where they were: the default headers stay sorted,
  -- and while a key pair is set they hold no Authorization header. This is so however the run ends,
  -- by `stop`, an exception or a fault, after any number of rounds, and whatever the servers answer
  -- and the handlers call.
  pub run-IsExclusive :
      (fuel : ℕ) (s : Session) → IsExclusive s.client → IsExclusive (run env json fuel s).1.client
  run-IsExclusive fuel s h =
      (run-Keeps json env Exclusive-polls
          (λ t k. record { sorted = k.sorted; exclusive = k.exclusive })
          (λ t k. record { sorted = k.sorted; exclusive = k.exclusive }) fuel).at
        s h
