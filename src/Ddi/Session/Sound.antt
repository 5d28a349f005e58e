-- ===== src/Ddi/Session/Sound.antt =====
-- What the client makes of the Unix client: the results of requests, and the calls back into the
-- client, end in no fault.
pub mod Rules
pub mod Requests
pub mod Calls
use mathlib.Core.Path.{subst}
use up2date_cpp.Base.{
  ◌≡◌, ◌≢◌, refl, Bool, true, false, if◌then◌else◌, Option, none, some, List, [], ◌∷◌, inl, inr,
  Bool-cases, Option-cases, ℕ, arith,
}
use up2date_cpp.Text.{Text}
use up2date_cpp.Outcome.{Exception, Fault, Result, ok, throw, fault, HttpError, is_success}
use up2date_cpp.Uri.{Uri, from_string, from_string_lem, store_match_ends}
use up2date_cpp.Uri.Match.{UriMatch, regex_match}
use up2date_cpp.Unix.{to_http_lib_result}
use up2date_cpp.Ddi.Endpoint.{hawkbit_endpoint_from}
use up2date_cpp.Ddi.State.{
  Client, RestoreCall, apply_restore, set_endpoint, set_controller_endpoint, apply_signal,
}
use up2date_cpp.Ddi.Session.Monad.{
  ◌>>=◌, Event, Connection, Method, Request, Reply, HttpResult, Delivery, unreachable, answers,
  History, Restore, done, raise, call, Download, to_file, to_body, to_receiver, Answer, finished,
  failed, Callback, return, raise_from, fetch, send_signal, Environment, Session, M, lift, gets,
  asks, emit, updated, try_modify, dereferenced,
}
use up2date_cpp.Ddi.Session.Requests.{
  reply, no_reply, http_ok, check_http_code, send, deliver, deliver_all, send_stream,
  wrapped_request, run_restore, resume_restore, ask_auth, is_unauthorized, again, recover,
  retry_handler, write_piece, receive_piece, get_body, download_to, download_with_receiver,
  fetch_artifact, run_callback, resume_callback,
}
use up2date_cpp.Ddi.Session.Sound.Rules.{
  Fine, Gives, Anything, Complete, Gives-pure, Gives-lift, Gives-gets, Gives-asks, Gives-emit,
  Gives-if, Gives-bind, Fine-bind,
}

-- Results of requests as the Unix client gives them: each came through `toHttpLibResult`, and a
-- stream without an answer has an error.
pub record OverUnix (env : Environment) : Type 0 where
  pub exchanged :
      (h : History) (r : Request)
      → (raw : HttpResult) × (to_http_lib_result raw ≡ ok (env.exchange h r))
  pub streamed :
      (h : History) (r : Request) (e : HttpError)
      → env.stream h r ≡ unreachable e
      → is_success e ≡ false

pub to_http_lib_result-Complete : (raw r : HttpResult) → to_http_lib_result raw ≡ ok r → Complete r
unfolding to_http_lib_result
to_http_lib_result-Complete raw r h = elim (Option-cases raw.response) [
  | inl missing ↦ λ success. absurd (ground arith)
  | inr there ↦ λ success. (there.0, ground arith)
]

from_string-Fine : (t : Text) → Fine Anything (from_string t)
from_string-Fine t = elim (store_match_ends (regex_match t)) [
  | inl accepted ↦ rw (from_string_lem t) (rw accepted.1 tt)
  | inr refused ↦ rw (from_string_lem t) (rw refused.1 tt)
]

set_endpoint-Fine : (t : Text) (c : Client) → Fine Anything (set_endpoint t c)
unfolding set_endpoint
set_endpoint-Fine t c = Fine-bind (from_string t) _ (from_string-Fine t) (λ u. tt)

pub apply_restore-Fine : (k : RestoreCall) (c : Client) → Fine Anything (apply_restore k c)
unfolding apply_restore set_controller_endpoint hawkbit_endpoint_from
apply_restore-Fine (RestoreCall.tls_call crt key) c = tt
apply_restore-Fine (RestoreCall.endpoint_call endpoint) c = set_endpoint-Fine endpoint c
apply_restore-Fine (RestoreCall.controller_endpoint_call endpoint controller tenant) c =
    Fine-bind (hawkbit_endpoint_from endpoint controller tenant) _
      (Fine-bind (from_string endpoint) _ (from_string-Fine endpoint) (λ u. tt))
      (λ full. set_endpoint-Fine full c)
apply_restore-Fine (RestoreCall.device_token_call token) c = tt
apply_restore-Fine (RestoreCall.gateway_token_call token) c = tt

pub check_http_code-Fine :
    (presented expected : ℕ) → Fine Anything (check_http_code presented expected)
unfolding check_http_code
check_http_code-Fine presented expected = ground arith

pub checked-Fine :
    (b : Bool) (e : Exception) → Fine {A = Unit {0}} (λ _. b ≡ true) (if b then ok tt else throw e)
checked-Fine true e = refl
checked-Fine false e = tt

pub dereferenced-Fine :
    (r : HttpResult)
    → Complete r
    → is_success r.error ≡ true
    → Fine Anything (dereferenced r.response)
dereferenced-Fine r complete success = let (response, found) = complete success in rw found tt
