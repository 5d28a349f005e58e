-- ===== src/Tests/Sessions.antt =====
-- Theorems about sessions of the client, in a concrete world.
use up2date_cpp.Base.{◌≡◌, refl, true, false, none, some, [], ◌∷◌}
use up2date_cpp.Base.Int.{pos}
use up2date_cpp.Text.{codes, c_str}
use up2date_cpp.Outcome.{ok, throw, unauthorized}
use up2date_cpp.Multimap.{erase}
use up2date_cpp.Uri.{from_string}
use up2date_cpp.Json.{RapidJson}
use up2date_cpp.Tests.Library.{empty_object, knowing}
use up2date_cpp.Tests.World.{body, world, client, start, old_endpoint}
use up2date_cpp.Ddi.State.{Client, RestoreCall, apply_restore, set_endpoint, set_tls}
use up2date_cpp.Ddi.State.Credentials.{IsExclusive}
use up2date_cpp.Ddi.Builder.{Builder, m_tls_keypair, build}
use up2date_cpp.Ddi.Builder.Build.{build-IsExclusive}
use up2date_cpp.Ddi.Session.Monad.{get, requested, auth_asked, History, Environment, try_modify}
use up2date_cpp.Ddi.Session.Requests.{connection_of, check_http_code, run_restore, retry_handler}
use up2date_cpp.Ddi.Session.Retry.{Trace, retry_handler-Trace, attempt, request_of, with_asked}
use up2date_cpp.Ddi.Poll.{get_poll, post_feedback, deliver_feedback}
use up2date_cpp.Ddi.Poll.Restored.{get_poll-OneRequest, poll_restored}
use up2date_cpp.Ddi.Poll.Feedback.{feedback_outcome, deliver_feedback_lem}

abbrev json : RapidJson
json = knowing empty_object

-- The handler restores a token.
abbrev tokens : Environment
tokens = world (RestoreCall.device_token_call (codes "t"))

-- The handler sets another endpoint.
abbrev moves : Environment
moves = world (RestoreCall.endpoint_call (codes "https://new/b"))

client-IsExclusive : IsExclusive client
client-IsExclusive = record { sorted = tt; exclusive = λ on. cc }

Trace_example :
    Trace tokens
      (λ c. request_of c old_endpoint get c.hawkbit_uri.path)
      start
      (retry_handler tokens old_endpoint (get_poll json tokens) start)
Trace_example =
    retry_handler-Trace tokens (λ c. request_of c old_endpoint get c.hawkbit_uri.path) start
      old_endpoint (get_poll json tokens) (get_poll-OneRequest json tokens old_endpoint)

feedback_example :
    deliver_feedback json tokens old_endpoint body (some 3) start
    ≡ feedback_outcome (some 3) (
        retry_handler tokens old_endpoint
          (post_feedback json tokens old_endpoint (c_str body))
          start)
feedback_example = deliver_feedback_lem json tokens old_endpoint body (some 3) start

abbrev keys : Builder
keys = record {
  hawkbit_uri = codes "https://old/a";
  polling_timeout = pos 1000;
  default_headers = [];
  auth_error_handler = none;
  handler = some 1;
  token = [];
  crt = codes "c";
  key = codes "k";
  verify_server_certificate = true;
  auth_variant = m_tls_keypair;
}

abbrev keyed : Client
keyed = record {
  hawkbit_uri = old_endpoint;
  default_headers = [];
  handler = some 1;
  auth_error_handler = none;
  default_sleep_time = pos 1000;
  current_sleep_time = pos 1000;
  ignore_sleep = false;
  is_running = false;
  poll_requested = false;
  server_certificate_verify = true;
  tls = record { crt = codes "c"; key = codes "k"; is_set = true };
}

keys_built : build keys ≡ ok keyed
unfolding build set_endpoint from_string set_tls erase
keys_built = refl

build_example : IsExclusive keyed
build_example = build-IsExclusive keys keyed tt keys_built

-- The client after the handler set the endpoint.
abbrev moved : Client
moved = record client {
  hawkbit_uri = record {
    scheme = codes "https";
    authority = codes "new";
    path = codes "/b";
    query = [];
    fragment = [];
  };
}

abbrev first : History
first = requested (request_of client old_endpoint get (codes "/a")) ∷ []

denied :
    attempt moves (request_of client old_endpoint get (codes "/a")) start
    ≡ (throw unauthorized, record { client = client; history = first })
unfolding check_http_code connection_of
denied = refl

restores :
    run_restore moves
      (moves.on_auth_error 2 first)
      (with_asked moves 2 (record { client = client; history = first }))
    ≡ (ok tt, record { client = moved; history = auth_asked 2 ∷ first })
unfolding run_restore apply_restore set_endpoint from_string try_modify
restores = refl

restored_example :
    let first = request_of client old_endpoint get (codes "/a") in
    let again = request_of moved old_endpoint get (codes "/b") in
    let h : History = auth_asked 2 ∷ requested first ∷ [] in
    retry_handler moves old_endpoint (get_poll json moves) start
    ≡ attempt moves again (record { client = moved; history = h })
restored_example =
    poll_restored json moves client [] 2 moved (record { client = client; history = first }) denied
      refl restores
