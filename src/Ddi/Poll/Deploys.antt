-- ===== src/Ddi/Poll/Deploys.antt =====
-- A poll that names a deployment, from its first request to its feedback.
use up2date_cpp.Base.{ℕ, ◌≡◌, refl, ◌∙◌, ap, some, ◌∷◌}
use up2date_cpp.Text.{Text}
use up2date_cpp.Outcome.{ok}
use up2date_cpp.Json.{RapidJson}
use up2date_cpp.Ddi.Response.{Response}
use up2date_cpp.Ddi.Feedback.{fill_response_document, format_feedback_path}
use up2date_cpp.Ddi.Payload.Polling.{deployment_base, PollingData, polling_data_from_string}
use up2date_cpp.Ddi.Payload.Deployment.{DeploymentBase, deployment_base_from}
use up2date_cpp.Ddi.State.{Client}
use up2date_cpp.Ddi.Session.Monad.{
  get, Request, Reply, requested, deployment_asked, History, Environment, Session, gets, asks, emit,
  modify, dereferenced, ◌>>=◌,
}
use up2date_cpp.Ddi.Session.Requests.{retry_handler, run_callback}
use up2date_cpp.Ddi.Session.Retry.{request_of, attempt_ok, reply_to}
use up2date_cpp.Ddi.Session.Keeps.{told}
use up2date_cpp.Ddi.Poll.{
  event_handler, get_action, send_feedback, follow_deployment_base, follow_action, get_poll,
  do_poll, with_sleep,
}
use up2date_cpp.Ddi.Poll.Restored.{wrapped_poll}
use up2date_cpp.Ddi.Poll.Sends.{
  bind_ok, lift_ok, retry_ok, sent_ok, report_of, reported, send_feedback_sent,
}

module _ (json : RapidJson) (env : Environment) where
  -- The sessions of a poll from the client `c` and the history `h`: asked for the action, with the
  -- sleep time of the answer; asked for the deployment; and with the handler called.
  module _ (c : Client) (h : History) (polled : PollingData) where
    abbrev pub poll_request : Request
    poll_request = request_of c c.hawkbit_uri get c.hawkbit_uri.path

    abbrev pub after_poll : Session
    after_poll = record {
      client = with_sleep json env polled.sleep_time c;
      history = requested poll_request ∷ h;
    }

    abbrev pub action_request : Request
    action_request = request_of after_poll.client polled.follow_uri get polled.follow_uri.path

    abbrev pub after_get : Session
    after_get = told (requested action_request) after_poll

    -- What the servers answer in a poll that offers a deployment, both at once, to a client with
    -- the handler `n` of the events.
    pub record Offered (deployment : DeploymentBase) (n : ℕ) : Type 0 where
      pub poll_reply : Reply
      pub poll_answered : reply_to env h poll_request ≡ ok poll_reply
      pub poll_read : polling_data_from_string json poll_reply.body ≡ ok polled
      pub is_deployment : polled.action ≡ deployment_base
      pub action_reply : Reply
      pub answered : reply_to env after_poll.history action_request ≡ ok action_reply
      pub deployment_read : deployment_base_from json action_reply.body ≡ ok deployment
      pub is_handler : c.handler ≡ some n

    -- How the handler comes to a response in the session `end`, and its feedback is accepted at
    -- once.
    pub record Deployed (deployment : DeploymentBase) (n : ℕ) (answer : Response)
        (document : json.Value) (path : Text) (end : Session) : Type 0 where
      pub handled :
          run_callback env
            (env.on_deployment_action n after_get.history deployment)
            (told (deployment_asked n deployment) after_get)
          ≡ (ok (some answer), end)
      pub filled :
          fill_response_document json (some answer) json.empty_object deployment.id ≡ ok document
      pub formed : format_feedback_path polled.follow_uri ≡ ok path
      pub feedback_reply : Reply
      pub accepted :
          reply_to env end.history (report_of json env polled.follow_uri end document path)
          ≡ ok feedback_reply

    module _ (deployment : DeploymentBase) (n : ℕ) (d : Offered deployment n) where
      poll_sent :
          retry_handler env c.hawkbit_uri (get_poll json env) (record { client = c; history = h })
          ≡ (ok d.poll_reply, record { client = c; history = after_poll.history })
      poll_sent =
          let t : Session = record { client = c; history = after_poll.history } in
          retry_ok json env c.hawkbit_uri (get_poll json env) d.poll_reply
            (record { client = c; history = h }) t
            (wrapped_poll json env c h c
              ∙ attempt_ok env poll_request (record { client = c; history = h }) d.poll_reply
                  d.poll_answered)

      handler_found : event_handler json env after_get ≡ (ok n, after_get)
      unfolding event_handler ◌>>=◌
      handler_found = ap (λ o. (dereferenced o, after_get)) d.is_handler

      follow_deployment_base_offered :
          follow_deployment_base json env polled.follow_uri after_poll
          ≡ (run_callback env (env.on_deployment_action n after_get.history deployment)
                >>= send_feedback json env polled.follow_uri deployment.id)
              (told (deployment_asked n deployment) after_get)
      unfolding follow_deployment_base get_action asks emit
      follow_deployment_base_offered =
          bind_ok (get_action json env polled.follow_uri) _ (
            sent_ok json env polled.follow_uri get polled.follow_uri.path d.action_reply after_poll
              d.answered)
          ∙ lift_ok (deployment_base_from json d.action_reply.body) _ d.deployment_read
          ∙ bind_ok (event_handler json env) _ handler_found
          ∙ bind_ok (asks (λ h. env.on_deployment_action n h deployment)) _ refl
          ∙ bind_ok (emit (deployment_asked n deployment)) _ refl

      followed :
          follow_action json env polled.action polled.follow_uri after_poll
          ≡ follow_action json env deployment_base polled.follow_uri after_poll
      followed = ap (λ a. follow_action json env a polled.follow_uri after_poll) d.is_deployment

      -- Behind the two requests the poll is the run of the handler and the feedback on its answer.
      pub do_poll_offered :
          do_poll json env (record { client = c; history = h })
          ≡ (run_callback env (env.on_deployment_action n after_get.history deployment)
                >>= send_feedback json env polled.follow_uri deployment.id)
              (told (deployment_asked n deployment) after_get)
      unfolding do_poll gets modify follow_action
      do_poll_offered =
          bind_ok (gets (λ c. c.hawkbit_uri)) _ refl
          ∙ bind_ok (retry_handler env c.hawkbit_uri (get_poll json env)) _ poll_sent
          ∙ lift_ok (polling_data_from_string json d.poll_reply.body) _ d.poll_read
          ∙ bind_ok (modify (with_sleep json env polled.sleep_time)) _ refl
          ∙ followed
          ∙ follow_deployment_base_offered

      -- A poll that names a deployment, where the servers answer and accept at once and the handler
      -- comes to a response, ends well: after the handler's own calls it has posted the response,
      -- with the number of the deployment, to the feedback path of the deployment, with the
      -- credentials of that moment, told its listener, and taken over whether to skip the sleep.
      pub do_poll_deploys :
          (answer : Response) (document : json.Value) (path : Text) (end : Session)
          → Deployed deployment n answer document path end
          → do_poll json env (record { client = c; history = h })
            ≡ (ok tt, reported json env polled.follow_uri answer document path end)
      do_poll_deploys answer document path end done =
          do_poll_offered
          ∙ bind_ok (run_callback env (env.on_deployment_action n after_get.history deployment)) _
              done.handled
          ∙ send_feedback_sent json env polled.follow_uri answer end deployment.id document path
              done.feedback_reply done.filled done.formed done.accepted
