-- ===== src/Ddi/Poll/Frame.antt =====
-- What no poll changes in the client, and what it changes in one direction only.
use mathlib.Core.Path.{subst}
use up2date_cpp.Base.{◌≡◌, refl, ◌∙◌, true, false, arith}
use up2date_cpp.Text.{Text}
use up2date_cpp.Outcome.{ok, bind-eq-ok, ok-injective}
use up2date_cpp.Json.{RapidJson}
use up2date_cpp.Uri.{from_string}
use up2date_cpp.Ddi.Endpoint.{hawkbit_endpoint_from}
use up2date_cpp.Ddi.State.{
  Client, RestoreCall, apply_restore, set_endpoint, set_controller_endpoint, set_tls,
  set_device_token, set_gateway_token, Signal, apply_signal, stop, request_to_poll,
}
use up2date_cpp.Ddi.Session.Monad.{Environment, Session}
use up2date_cpp.Ddi.Poll.{do_poll}
use up2date_cpp.Ddi.Poll.Keeps.{KeptByPolls, do_poll-Keeps}

-- The handlers, the time and the verification that the builder set; a stopped client stays
-- stopped, and a request to poll stays.
pub record Frame (c d : Client) : Type 0 where
  pub same_handler : d.handler ≡ c.handler
  pub same_auth_handler : d.auth_error_handler ≡ c.auth_error_handler
  pub same_default_sleep : d.default_sleep_time ≡ c.default_sleep_time
  pub same_verify : d.server_certificate_verify ≡ c.server_certificate_verify
  pub stays_stopped : c.is_running ≡ false → d.is_running ≡ false
  pub stays_requested : c.poll_requested ≡ true → d.poll_requested ≡ true

pub Frame-refl : (c : Client) → Frame c c
Frame-refl c = record {
  same_handler = refl;
  same_auth_handler = refl;
  same_default_sleep = refl;
  same_verify = refl;
  stays_stopped = λ h. h;
  stays_requested = λ h. h;
}

pub Frame-trans : {c d e : Client} → Frame c d → Frame d e → Frame c e
Frame-trans f g = record {
  same_handler = g.same_handler ∙ f.same_handler;
  same_auth_handler = g.same_auth_handler ∙ f.same_auth_handler;
  same_default_sleep = g.same_default_sleep ∙ f.same_default_sleep;
  same_verify = g.same_verify ∙ f.same_verify;
  stays_stopped = λ h. g.stays_stopped (f.stays_stopped h);
  stays_requested = λ h. g.stays_requested (f.stays_requested h);
}

Frame-eq : {c d e : Client} → Frame c d → ok d ≡ ok e → Frame c e
Frame-eq {c} f h = subst (Frame c) (ok-injective h) f

set_endpoint-Frame : (t : Text) (c d : Client) → set_endpoint t c ≡ ok d → Frame c d
unfolding set_endpoint
set_endpoint-Frame t c d h =
    let (u, read, there) = bind-eq-ok (from_string t) _ h in Frame-eq (ground arith) there

pub apply_restore-Frame : (k : RestoreCall) (c d : Client) → apply_restore k c ≡ ok d → Frame c d
unfolding apply_restore set_controller_endpoint set_tls set_device_token set_gateway_token
apply_restore-Frame (RestoreCall.tls_call crt key) c d h = Frame-eq (ground arith) h
apply_restore-Frame (RestoreCall.endpoint_call t) c d h = set_endpoint-Frame t c d h
apply_restore-Frame (RestoreCall.controller_endpoint_call t controller tenant) c d h =
    let (full, built, there) = bind-eq-ok (hawkbit_endpoint_from t controller tenant) _ h in
    set_endpoint-Frame full c d there
apply_restore-Frame (RestoreCall.device_token_call token) c d h = Frame-eq (ground arith) h
apply_restore-Frame (RestoreCall.gateway_token_call token) c d h = Frame-eq (ground arith) h

pub apply_signal-Frame : (x : Signal) (c : Client) → Frame c (apply_signal x c)
unfolding apply_signal stop request_to_poll
apply_signal-Frame Signal.stop_signal c = (ground arith)
apply_signal-Frame Signal.poll_signal c = (ground arith)

-- The sessions that a poll may lead to from a client.
abbrev Framed : Client → Session → Type 0
Framed c s = Frame c s.client

Framed-polls : (c : Client) → KeptByPolls (Framed c)
Framed-polls c = record {
  by_calls = record {
    by_event = λ e s allowed f. f;
    by_restore = λ k s d f h. Frame-trans f (apply_restore-Frame k s.client d h);
    by_signal = λ x s f. Frame-trans f (apply_signal-Frame x s.client);
  };
  by_ignore = λ b s f. Frame-trans f (ground arith);
  by_time = λ time s f. Frame-trans f (ground arith);
}

module _ (json : RapidJson) (env : Environment) where
  -- However a poll ends, and whatever its handlers call, it leaves the handlers, the default sleep
  -- time and the verification of certificates as they were, it starts no stopped client, and it
  -- forgets no request to poll.
  pub do_poll-Frame : (s : Session) → Frame s.client (do_poll json env s).1.client
  do_poll-Frame s = (do_poll-Keeps json env (Framed-polls s.client)).at s (Frame-refl s.client)
