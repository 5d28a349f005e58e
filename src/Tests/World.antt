-- ===== src/Tests/World.antt =====
-- A server that answers the first request with 401, a handler that restores the credentials, and
-- a client.
use up2date_cpp.Base.{true, false, none, some, List, [], ◌∷◌}
use up2date_cpp.Base.Int.{pos}
use up2date_cpp.Text.{Text, codes}
use up2date_cpp.Outcome.{HttpError}
use up2date_cpp.Uri.{Uri}
use up2date_cpp.Ddi.State.{Client, no_keypair, RestoreCall, Signal}
use up2date_cpp.Ddi.Response.{new_response_builder}
use up2date_cpp.Ddi.Session.Monad.{
  HttpResult, auth_asked, History, done, call, return, Environment, Session, answers,
}
use up2date_cpp.Ddi.Session.Requests.{reply}

abbrev pub body : Text
body = codes "{...}"

-- 401 as long as nobody was asked for credentials.
abbrev pub answer_of : History → HttpResult
answer_of [] = reply 401 []
answer_of (auth_asked n ∷ h) = reply 200 body
answer_of (_ ∷ h) = answer_of h

abbrev pub signals_of : History → List Signal
signals_of [] = []
signals_of (_ ∷ h) = Signal.stop_signal ∷ []

abbrev pub world : RestoreCall → Environment
world k = record {
  rejects = λ k. none;
  exchange = λ h r. answer_of h;
  stream = λ h r. answers 200 (body ∷ []) HttpError.success;
  on_auth_error = λ n h. call k (λ _. done);
  on_config_request = λ n h. return none;
  on_cancel_action = λ n h a. return (some new_response_builder);
  on_deployment_action = λ n h d. return (some new_response_builder);
  on_no_actions = λ n h. return tt;
  write_succeeds = λ h. true;
  while_asleep = signals_of;
}

abbrev pub old_endpoint : Uri
old_endpoint = record {
  scheme = codes "https";
  authority = codes "old";
  path = codes "/a";
  query = [];
  fragment = [];
}

abbrev pub client : Client
client = record {
  hawkbit_uri = old_endpoint;
  default_headers = [];
  handler = some 1;
  auth_error_handler = some 2;
  default_sleep_time = pos 30000;
  current_sleep_time = pos 30000;
  ignore_sleep = false;
  is_running = true;
  poll_requested = false;
  server_certificate_verify = true;
  tls = no_keypair;
}

abbrev pub start : Session
start = record { client = client; history = [] }
