-- ===== src/Ddi/Poll/Protocol.antt =====
-- The protocol of one poll: which calls out of the library follow which, with the handler that is
-- run among them, and its answer that is sent behind it.
pub mod Rules
pub mod Polls
pub mod Reports
use up2date_cpp.Base.{ℕ, ◌≡◌, Option, none, some, [], ◌∷◌}
use up2date_cpp.Base.Int.{ℤ, negsuc}
use up2date_cpp.Text.{Text, c_str}
use up2date_cpp.Outcome.{Result, ok, throw, fault}
use up2date_cpp.Uri.{Uri}
use up2date_cpp.Json.{RapidJson}
use up2date_cpp.Ddi.Payload.Polling.{
  Action, get_config_data, cancel_action, deployment_base, no_action, PollingData,
  polling_data_from_string,
}
use up2date_cpp.Ddi.Payload.Cancel.{CancelAction, cancel_action_from_string}
use up2date_cpp.Ddi.Payload.Deployment.{DeploymentBase, deployment_base_from}
use up2date_cpp.Ddi.Response.{
  Finished, Execution, Response, ConfigResponse, new_response_builder, set_finished, set_execution,
  build_response,
}
use up2date_cpp.Ddi.Feedback.{fill_response_document, config_document, format_feedback_path}
use up2date_cpp.Ddi.State.{Client}
use up2date_cpp.Ddi.Session.Monad.{
  Method, get, post, put, Request, Reply, config_asked, cancel_asked, deployment_asked,
  no_actions_told, delivered, undelivered, Environment, History, Session,
}
use up2date_cpp.Ddi.Session.Requests.{run_callback}
use up2date_cpp.Ddi.Session.Keeps.{told}
use up2date_cpp.Ddi.Session.Retry.{request_of}
use up2date_cpp.Ddi.Session.Exchange.{Exchange}
use up2date_cpp.Ddi.Poll.{json_type}

-- A request of some client on behalf of a URI.
abbrev pub Asking : Uri → Method → Text → Request → Type 0
Asking u method path r = (c : Client) × (r ≡ request_of c u method path)

-- A poll goes to the path that the client has then.
abbrev pub Polling : Uri → Request → Type 0
Polling u r = (c : Client) × (r ≡ request_of c u get c.hawkbit_uri.path)

-- A feedback goes to the feedback path of the action.
abbrev pub Posting : Uri → Text → Request → Type 0
Posting u body r =
    (path : Text) × (format_feedback_path u ≡ ok path) × Asking u (post body json_type) path r

-- How far a poll has come: the server was polled, or asked for an action, with the response or
-- without one; a handler came to its end; its answer was sent; the listener was told.
pub data Phase : Type 0 where
  starting closed : Phase
  polled : Option Reply → Phase
  fetched : Action → Uri → Option Reply → Phase
  told_nothing : Result (Unit {0}) → Phase
  gave_config : Uri → Result (Option ConfigResponse) → Phase
  gave_answer : Uri → ℤ → Result (Option Response) → Phase
  put_data : Option Reply → Phase
  posted : Option ℕ → Option Reply → Phase

module _ (json : RapidJson) (env : Environment) where
  -- The response names an action.
  abbrev pub Names : Reply → Action → Uri → Type 0
  Names response action u =
      (polling : PollingData) × (polling_data_from_string json response.body ≡ ok polling)
      × (polling.action ≡ action)
      × (polling.follow_uri ≡ u)

  -- The histories that a poll reaches from the session `start`, by its phase. A handler is run in
  -- a session with the history up to then and its own call.
  pub data Reaches (start : Session) : Phase → History → Type 0 where
    begins : Reaches start starting start.history
    polls :
        {o : Option Reply} {h : History}
        → Exchange env (Polling start.client.hawkbit_uri) start.history o h
        → Reaches start (polled o) h
    asks_nothing :
        (response : Reply) (u : Uri) (n : ℕ) (s t : Session) (r : Result (Unit {0}))
        → Reaches start (polled (some response)) s.history
        → Names response no_action u
        → run_callback env (env.on_no_actions n s.history) (told (no_actions_told n) s) ≡ (r, t)
        → Reaches start (told_nothing r) t.history
    asks_config :
        (response : Reply) (u : Uri) (n : ℕ) (s t : Session) (r : Result (Option ConfigResponse))
        → Reaches start (polled (some response)) s.history
        → Names response get_config_data u
        → run_callback env (env.on_config_request n s.history) (told (config_asked n) s) ≡ (r, t)
        → Reaches start (gave_config u r) t.history
    fetches :
        (response : Reply) (action : Action) (u : Uri) {o : Option Reply} {g h : History}
        → Reaches start (polled (some response)) g
        → Names response action u
        → Exchange env (Asking u get u.path) g o h
        → Reaches start (fetched action u o) h
    asks_cancel :
        (response : Reply) (u : Uri) (n : ℕ) (action : CancelAction) (s t : Session)
        (r : Result (Option Response))
        → Reaches start (fetched cancel_action u (some response)) s.history
        → cancel_action_from_string json response.body ≡ ok action
        → run_callback env
            (env.on_cancel_action n s.history action)
            (told (cancel_asked n action) s)
          ≡ (r, t)
        → Reaches start (gave_answer u action.id r) t.history
    asks_deployment :
        (response : Reply) (u : Uri) (n : ℕ) (deployment : DeploymentBase) (s t : Session)
        (r : Result (Option Response))
        → Reaches start (fetched deployment_base u (some response)) s.history
        → deployment_base_from json response.body ≡ ok deployment
        → run_callback env
            (env.on_deployment_action n s.history deployment)
            (told (deployment_asked n deployment) s)
          ≡ (r, t)
        → Reaches start (gave_answer u deployment.id r) t.history
    puts :
        (u : Uri) (req : ConfigResponse) (document : json.Value) {o : Option Reply} {g h : History}
        → Reaches start (gave_config u (ok (some req))) g
        → fill_response_document json
            (some (
              build_response (
                set_execution Execution.closed
                  (set_finished Finished.success new_response_builder))))
            (config_document json req)
            (negsuc 0)
          ≡ ok document
        → Exchange env (Asking u (put (c_str (json.write document)) json_type) u.path) g o h
        → Reaches start (put_data o) h
    posts :
        (u : Uri) (id : ℤ) (answer : Response) (document : json.Value) {o : Option Reply}
        {g h : History}
        → Reaches start (gave_answer u id (ok (some answer))) g
        → fill_response_document json (some answer) json.empty_object id ≡ ok document
        → Exchange env (Posting u (c_str (json.write document))) g o h
        → Reaches start (posted answer.listener o) h
    tells_delivered :
        (n : ℕ) (response : Reply) {h : History}
        → Reaches start (posted (some n) (some response)) h
        → Reaches start closed (delivered n ∷ h)
    tells_undelivered :
        (n : ℕ) {h : History}
        → Reaches start (posted (some n) none) h
        → Reaches start closed (undelivered n ∷ h)

  -- Where a poll that returns may stand: a handler that is told that there is nothing to do has
  -- returned; it gave no data; its data was put; its response was posted, and has no listener; or
  -- the listener was told.
  abbrev pub Whole : Phase → Type 0
  Whole (told_nothing (ok _)) = Unit {0}
  Whole (gave_config u (ok (some req))) = req.data_map ≡ []
  Whole (put_data (some response)) = Unit {0}
  Whole (posted none (some response)) = Unit {0}
  Whole closed = Unit {0}
  Whole _ = ⊥

  pub record Follows (start : Session) (h : History) : Type 0 where
    pub phase : Phase
    pub reached : Reaches start phase h

  pub record Completes (start : Session) (h : History) : Type 0 where
    pub phase : Phase
    pub reached : Reaches start phase h
    pub whole : Whole phase

  -- The end of a poll: a normal return where it is whole, or an exception or a fault in any phase.
  abbrev pub PollEnds : {A : Type 0} → Session → Result A × Session → Type 0
  PollEnds start (ok a, s) = Completes start s.history
  PollEnds start (throw e, s) = Follows start s.history
  PollEnds start (fault x, s) = Follows start s.history
