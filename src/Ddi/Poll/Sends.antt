-- ===== src/Ddi/Poll/Sends.antt =====
-- Requests that are answered at once, in a chain of actions, and the feedback among them.
use up2date_cpp.Base.{ℕ, ◌≡◌, refl, ◌∙◌, ap, Option, none, some}
use up2date_cpp.Base.Int.{ℤ}
use up2date_cpp.Text.{Text, c_str}
use up2date_cpp.Outcome.{Result, ok}
use up2date_cpp.Uri.{Uri}
use up2date_cpp.Json.{RapidJson}
use up2date_cpp.Ddi.Response.{Response}
use up2date_cpp.Ddi.Feedback.{fill_response_document, format_feedback_path}
use up2date_cpp.Ddi.Session.Monad.{
  post, Method, Connection, HttpResult, Request, Reply, requested, delivered, Environment, Session,
  M, modify, continue, lift, ◌>>=◌,
}
use up2date_cpp.Ddi.Session.Requests.{send, wrapped_request, recover, retry_handler}
use up2date_cpp.Ddi.Session.Retry.{
  request_of, attempt_ok, reply_to, send-OneRequest, wrapped_request-attempt,
}
use up2date_cpp.Ddi.Session.Keeps.{told, with_client}
use up2date_cpp.Ddi.Poll.{json_type, post_feedback, deliver_feedback, send_feedback}
use up2date_cpp.Ddi.Poll.Keeps.{with_ignore}
use up2date_cpp.Ddi.Poll.Feedback.{feedback_outcome, deliver_feedback_lem}

-- An action that returned hands its value on.
pub bind_ok :
    {A B : Type 0} (m : M A) (next : A → M B) {a : A} {s t : Session}
    → m s ≡ (ok a, t)
    → (m >>= next) s ≡ next a t
unfolding ◌>>=◌
bind_ok m next e = ap (continue next) e

pub lift_ok :
    {A B : Type 0} (r : Result A) (next : A → M B) {a : A} {s : Session}
    → r ≡ ok a
    → (lift r >>= next) s ≡ next a s
unfolding ◌>>=◌ lift
lift_ok r next {s = s} e = ap (λ x. continue next (x, s)) e

-- The listener of a feedback that was delivered.
abbrev pub tell : Option ℕ → Session → Session
tell none s = s
tell (some n) s = told (delivered n) s

module _ (json : RapidJson) (env : Environment) where
  -- A request that is answered at once is not repeated.
  pub retry_ok :
      (u : Uri) (func : Connection → M HttpResult) (response : Reply) (s t : Session)
      → wrapped_request env u func s ≡ (ok response, t)
      → retry_handler env u func s ≡ (ok response, t)
  unfolding retry_handler recover
  retry_ok u func response s t e = ap (recover env u func) e

  pub sent_ok :
      (u : Uri) (method : Method) (path : Text) (response : Reply) (s : Session)
      → reply_to env s.history (request_of s.client u method path) ≡ ok response
      → retry_handler env u (send env method path) s
        ≡ (ok response, told (requested (request_of s.client u method path)) s)
  sent_ok u method path response s e =
      let request = request_of s.client u method path in
      retry_ok u _ response s (told (requested request) s) (
        wrapped_request-attempt env u (send env method path) (λ c. request_of c u method path)
          (send-OneRequest env u method path) s
        ∙ attempt_ok env request s response e)

  -- The request that posts a document as feedback.
  abbrev pub report_of : Uri → Session → json.Value → Text → Request
  report_of u s document path =
      request_of s.client u (post (c_str (json.write document)) json_type) path

  -- The session behind a feedback that was accepted.
  abbrev pub reported : Uri → Response → json.Value → Text → Session → Session
  reported u answer document path s =
      let t = tell answer.listener (told (requested (report_of u s document path)) s) in
      with_client (with_ignore answer.ignore_sleep t.client) t

  -- The feedback of an answer that the server accepts at once.
  module _ (u : Uri) (answer : Response) (s : Session) where
    post_feedback_sent :
        (body path : Text) (response : Reply)
        → format_feedback_path u ≡ ok path
        → let request = request_of s.client u (post body json_type) path in
          reply_to env s.history request ≡ ok response
          → retry_handler env u (post_feedback json env u body) s
            ≡ (ok response, told (requested request) s)
    unfolding post_feedback ◌>>=◌ lift
    post_feedback_sent body path response formed accepted =
        ap
          (λ r.
            retry_handler env u
              (λ connection. lift r >>= λ p. send env (post body json_type) p connection) s)
          formed
        ∙ sent_ok u (post body json_type) path response s accepted

    outcome_ok :
        (listener : Option ℕ) (response : Reply) (t : Session)
        → feedback_outcome listener (ok response, t) ≡ (ok tt, tell listener t)
    outcome_ok none response t = refl
    outcome_ok (some n) response t = refl

    pub send_feedback_sent :
        (id : ℤ) (document : json.Value) (path : Text) (response : Reply)
        → fill_response_document json (some answer) json.empty_object id ≡ ok document
        → format_feedback_path u ≡ ok path
        → reply_to env s.history (report_of u s document path) ≡ ok response
        → send_feedback json env u id (some answer) s ≡ (ok tt, reported u answer document path s)
    unfolding send_feedback modify
    send_feedback_sent id document path response filled formed accepted =
        lift_ok (fill_response_document json (some answer) json.empty_object id) _ filled
        ∙ lift_ok (ok answer) _ refl
        ∙ bind_ok (deliver_feedback json env u (json.write document) answer.listener) _ (
            deliver_feedback_lem json env u (json.write document) answer.listener s
            ∙ ap (feedback_outcome answer.listener)
                (post_feedback_sent (c_str (json.write document)) path response formed accepted)
            ∙ outcome_ok answer.listener response _)
