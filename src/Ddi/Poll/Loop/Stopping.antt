-- ===== src/Ddi/Poll/Loop/Stopping.antt =====
-- A run whose handler stops the client.
use mathlib.Core.Path.{subst}
use up2date_cpp.Base.{ℕ, suc, ◌≡◌, refl, true, false, some}
use up2date_cpp.Text.{Text}
use up2date_cpp.Outcome.{Result, ok, throw, fault}
use up2date_cpp.Json.{RapidJson}
use up2date_cpp.Ddi.Payload.Polling.{PollingData}
use up2date_cpp.Ddi.Payload.Deployment.{DeploymentBase}
use up2date_cpp.Ddi.State.{Client, Signal, apply_signal, stop}
use up2date_cpp.Ddi.Session.Monad.{
  Answer, finished, failed, Callback, return, raise_from, fetch, send_signal, deployment_asked,
  History, Environment, Session, M, continue, ◌>>=◌,
}
use up2date_cpp.Ddi.Session.Requests.{fetch_artifact, run_callback, resume_callback}
use up2date_cpp.Ddi.Session.Keeps.{Keeps, with_client, told}
use up2date_cpp.Ddi.Session.Keeps.Calls.{run_callback-Keeps}
use up2date_cpp.Ddi.Poll.{send_feedback, do_poll}
use up2date_cpp.Ddi.Poll.Keeps.{KeptByPolls, with_ignore, send_feedback-Keeps}
use up2date_cpp.Ddi.Poll.Frame.{apply_restore-Frame, apply_signal-Frame}
use up2date_cpp.Ddi.Poll.Deploys.{after_get, Offered, do_poll_offered}
use up2date_cpp.Ddi.Poll.Loop.{poll_loop}
use up2date_cpp.Ddi.Poll.Loop.Keeps.{polled}
use up2date_cpp.Ddi.Poll.Loop.Stopped.{poll_loop_stopped}

abbrev Off : Session → Type 0
Off s = s.client.is_running ≡ false

Off-polls : KeptByPolls Off
Off-polls = record {
  by_calls = record {
    by_event = λ e s allowed off. off;
    by_restore = λ k s d off h. (apply_restore-Frame k s.client d h).stays_stopped off;
    by_signal = λ x s off. (apply_signal-Frame x s.client).stays_stopped off;
  };
  by_ignore = λ b s off. off;
  by_time = λ time s off. off;
}

-- Whatever its downloads come to, a handler calls `stop` before it returns.
abbrev pub Stops : {A : Type 0} → Callback A → Type 0
Stops (return a) = ⊥
Stops (raise_from e) = Unit {0}
Stops (fetch uri how next) = (a : Answer) → Stops (next a)
Stops (send_signal Signal.stop_signal next) = Unit {0}
Stops (send_signal Signal.poll_signal next) = Stops next

-- The client is stopped where an action returned.
abbrev OkOff : {A : Type 0} → Result A × Session → Type 0
OkOff (ok a, s) = Off s
OkOff (throw e, s) = Unit {0}
OkOff (fault x, s) = Unit {0}

Off-OkOff : {A : Type 0} (r : Result A × Session) → Off r.1 → OkOff r
Off-OkOff (ok a, s) off = off
Off-OkOff (throw e, s) off = tt
Off-OkOff (fault x, s) off = tt

continue-OkOff :
    {A B : Type 0} (next : A → M B) (r : Result A × Session)
    → OkOff r
    → ((a : A) → Keeps Off (next a))
    → OkOff (continue next r)
continue-OkOff next (ok a, s) off k = Off-OkOff (next a s) ((k a).at s off)
continue-OkOff next (throw e, s) off k = tt
continue-OkOff next (fault x, s) off k = tt

module _ (env : Environment) where
  resume_callback-OkOff :
      {A : Type 0} (next : Answer → M A) (r : Result Text × Session)
      → ((a : Answer) (s : Session) → OkOff (next a s))
      → OkOff (resume_callback env next r)
  resume_callback-OkOff next (ok t, s) k = k (finished t) s
  resume_callback-OkOff next (throw e, s) k = k (failed e) s
  resume_callback-OkOff next (fault x, s) k = tt

  run_callback-OkOff :
      {A : Type 0} (c : Callback A) (s : Session) → Stops c → OkOff (run_callback env c s)
  unfolding run_callback apply_signal stop
  run_callback-OkOff (return a) s stops = absurd stops
  run_callback-OkOff (raise_from e) s stops = tt
  run_callback-OkOff (fetch uri how next) s stops =
      resume_callback-OkOff (λ a. run_callback env (next a)) (fetch_artifact env uri how s)
        (λ a t. run_callback-OkOff (next a) t (stops a))
  run_callback-OkOff (send_signal Signal.stop_signal next) s stops = Off-OkOff _ (
      (run_callback-Keeps env Off-polls.by_calls (λ e fetched. tt) next).at
        (with_client (stop s.client) s) refl)
  run_callback-OkOff (send_signal Signal.poll_signal next) s stops = run_callback-OkOff next _ stops

module _ (json : RapidJson) (env : Environment) (c : Client) (h : History) (named : PollingData)
    (deployment : DeploymentBase) (n : ℕ) where
  do_poll-OkOff :
      Offered json env c h named deployment n
      → Stops (env.on_deployment_action n (after_get json env c h named).history deployment)
      → OkOff (do_poll json env (record { client = c; history = h }))
  unfolding ◌>>=◌
  do_poll-OkOff offered stops = rw (do_poll_offered json env c h named deployment n offered) (
      continue-OkOff (send_feedback json env named.follow_uri deployment.id) _
        (run_callback-OkOff env _ (told (deployment_asked n deployment) _) stops)
        (λ answer. send_feedback-Keeps json env Off-polls named.follow_uri deployment.id answer))

module _ (json : RapidJson) (env : Environment) where
  -- A handler can end the run: where the servers offer a deployment at once, the handler calls
  -- `stop` before it returns, whatever its downloads come to, and the poll, with the feedback
  -- behind the handler, returns in a session, the loop returns in this session with the request to
  -- poll taken back; it makes no other poll and does not sleep. Two rounds of fuel are enough.
  pub poll_loop_stops :
      (c : Client) (h : History) (named : PollingData) (deployment : DeploymentBase) (n fuel : ℕ)
      (t : Session)
      → c.is_running ≡ true
      → Offered json env (with_ignore false c) h named deployment n
      → Stops (
          env.on_deployment_action n
            (after_get json env (with_ignore false c) h named).history
            deployment)
      → do_poll json env (record { client = with_ignore false c; history = h }) ≡ (ok tt, t)
      → poll_loop env json (suc (suc fuel)) (record { client = c; history = h })
        ≡ (ok (some tt), with_client (polled t.client) t)
  poll_loop_stops c h named deployment n fuel t on offered stops polls =
      poll_loop_stopped json env (record { client = c; history = h }) t fuel on polls
        (subst OkOff polls
          (do_poll-OkOff json env (with_ignore false c) h named deployment n offered stops))
