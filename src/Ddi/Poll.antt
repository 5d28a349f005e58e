-- ===== src/Ddi/Poll.antt =====
-- The poll loop of ddi/src/ddi_client_impl.cpp: `doPoll`, the three kinds of actions, `run`.
pub mod Loop
pub mod Deploys
pub mod Exclusive
pub mod Frame
pub mod Keeps
pub mod Restored
pub mod Sends
pub mod Feedback
pub mod Protocol
use up2date_cpp.Base.{ℕ, Bool, true, false, Option, none, some, List, [], ◌∷◌, if◌then◌else◌}
use up2date_cpp.Base.Int.{ℤ, negsuc, is_positive}
use up2date_cpp.Text.{Text, codes, c_str}
use up2date_cpp.Outcome.{Exception, Result, ok, throw, fault, http_unexpected_code}
use up2date_cpp.Multimap.{Multimap}
use up2date_cpp.Uri.{Uri}
use up2date_cpp.Json.{RapidJson}
use up2date_cpp.Ddi.Response.{
  Finished, Execution, Response, ConfigResponse, new_response_builder, set_finished, set_execution,
  build_response,
}
use up2date_cpp.Ddi.Payload.Polling.{
  Action, get_config_data, cancel_action, deployment_base, no_action, PollingData,
  polling_data_from_string,
}
use up2date_cpp.Ddi.Payload.Cancel.{CancelAction, cancel_action_from_string}
use up2date_cpp.Ddi.Payload.Deployment.{DeploymentBase, deployment_base_from}
use up2date_cpp.Ddi.Feedback.{fill_response_document, config_document, format_feedback_path}
use up2date_cpp.Ddi.State.{Client}
use up2date_cpp.Ddi.Session.Monad.{
  get, post, put, Connection, Reply, HttpResult, config_asked, cancel_asked, deployment_asked,
  no_actions_told, delivered, undelivered, Callback, Environment, Session, M, pure, lift, gets,
  asks, ◌>>=◌, ◌>>◌, modify, emit, dereferenced,
}
use up2date_cpp.Ddi.Session.Requests.{send, retry_handler, run_callback}

abbrev pub json_type : Text
json_type = codes "application/json"

abbrev pub set_ignore : Bool → M (Unit {0})
set_ignore b = modify (λ c. record c { ignore_sleep = b })

module _ (json : RapidJson) (env : Environment) where
  -- The handler of the events, a pointer that is followed.
  unfoldable pub event_handler : M ℕ
  event_handler = do handler ← gets (λ c. c.handler); lift (dereferenced handler)

  unfoldable pub put_config : Uri → ConfigResponse → M (Unit {0})
  unfolding fill_response_document config_document
  put_config uri req = do
    let answer =
        build_response
          (set_execution Execution.closed (set_finished Finished.success new_response_builder))
    document ←
        lift (fill_response_document json (some answer) (config_document json req) (negsuc 0))
    retry_handler env uri (send env (put (c_str (json.write document)) json_type) uri.path)
    set_ignore req.ignore_sleep

  -- Nothing is sent where the handler gave no data.
  unfoldable pub put_unless_empty : Multimap → Uri → ConfigResponse → M (Unit {0})
  unfolding put_config
  put_unless_empty [] uri req = pure tt
  put_unless_empty (_ ∷ _) uri req = put_config uri req

  -- `followConfigData`
  unfoldable pub follow_config_data : Uri → M (Unit {0})
  unfolding event_handler put_unless_empty
  follow_config_data uri = do
    handler ← event_handler
    callback ← asks (λ h. env.on_config_request handler h)
    emit (config_asked handler)
    answer ← run_callback env callback
    req ← lift (dereferenced answer)
    put_unless_empty req.data_map uri req

  -- A `Get` of the action that the poll named.
  unfoldable pub get_action : Uri → M Reply
  get_action uri = retry_handler env uri (send env get uri.path)

  -- The request that posts a feedback; its path is made when it is sent.
  unfoldable pub post_feedback : Uri → Text → Connection → M HttpResult
  post_feedback uri body connection = do
    path ← lift (format_feedback_path uri)
    send env (post body json_type) path connection

  abbrev pub tell_listener : Option ℕ → M (Unit {0})
  tell_listener none = pure tt
  tell_listener (some listener) = emit (delivered listener)

  abbrev pub is_unexpected_code : Exception → Bool
  is_unexpected_code (http_unexpected_code presented expected) = true
  is_unexpected_code _ = false

  -- `catch (http_unexpected_code_exception &e)` hands the failure to the listener, if any.
  unfoldable pub catch_code : Option ℕ → Result (Unit {0}) × Session → Result (Unit {0}) × Session
  catch_code listener (ok a, s) = (ok a, s)
  catch_code listener (fault e, s) = (fault e, s)
  catch_code none (throw e, s) = (throw e, s)
  catch_code (some listener) (throw e, s) =
      if is_unexpected_code e then emit (undelivered listener) s else (throw e, s)

  unfoldable pub try_feedback : Uri → Text → Option ℕ → M (Unit {0})
  try_feedback uri body listener = do
    retry_handler env uri (post_feedback uri (c_str body))
    tell_listener listener

  -- The `try` block with its handler.
  unfoldable pub deliver_feedback : Uri → Text → Option ℕ → M (Unit {0})
  unfolding try_feedback catch_code
  deliver_feedback uri body listener s = catch_code listener (try_feedback uri body listener s)

  -- The feedback of `followCancelAction` and `followDeploymentBase`.
  unfoldable pub send_feedback : Uri → ℤ → Option Response → M (Unit {0})
  unfolding fill_response_document deliver_feedback
  send_feedback uri action_id answer = do
    document ← lift (fill_response_document json answer json.empty_object action_id)
    response ← lift (dereferenced answer)
    deliver_feedback uri (json.write document) response.listener
    set_ignore response.ignore_sleep

  -- `followCancelAction`
  unfoldable pub follow_cancel_action : Uri → M (Unit {0})
  unfolding get_action event_handler send_feedback
  follow_cancel_action uri = do
    response ← get_action uri
    action ← lift (cancel_action_from_string json response.body)
    handler ← event_handler
    callback ← asks (λ h. env.on_cancel_action handler h action)
    emit (cancel_asked handler action)
    answer ← run_callback env callback
    send_feedback uri action.id answer

  -- `followDeploymentBase`
  unfoldable pub follow_deployment_base : Uri → M (Unit {0})
  unfolding get_action event_handler send_feedback
  follow_deployment_base uri = do
    response ← get_action uri
    deployment ← lift (deployment_base_from json response.body)
    handler ← event_handler
    callback ← asks (λ h. env.on_deployment_action handler h deployment)
    emit (deployment_asked handler deployment)
    answer ← run_callback env callback
    send_feedback uri deployment.id answer

  -- `handler->onNoActions()`
  unfoldable pub tell_no_actions : M (Unit {0})
  unfolding event_handler
  tell_no_actions = do
    handler ← event_handler
    callback ← asks (λ h. env.on_no_actions handler h)
    emit (no_actions_told handler)
    run_callback env callback

  -- The `switch` of `doPoll`.
  unfoldable pub follow_action : Action → Uri → M (Unit {0})
  unfolding follow_config_data follow_cancel_action follow_deployment_base tell_no_actions
  follow_action no_action uri = tell_no_actions
  follow_action get_config_data uri = follow_config_data uri
  follow_action cancel_action uri = follow_cancel_action uri
  follow_action deployment_base uri = follow_deployment_base uri

  -- The `Get` of a poll reads the path when it is sent, the server before.
  unfoldable pub get_poll : Connection → M HttpResult
  get_poll connection = do uri ← gets (λ c. c.hawkbit_uri); send env get uri.path connection

  abbrev pub with_sleep : ℤ → Client → Client
  with_sleep sleep c = record c {
    current_sleep_time = if is_positive sleep then sleep else c.default_sleep_time;
  }

  -- `doPoll`
  unfoldable pub do_poll : M (Unit {0})
  unfolding get_poll follow_action
  do_poll = do
    uri ← gets (λ c. c.hawkbit_uri)
    response ← retry_handler env uri get_poll
    polling ← lift (polling_data_from_string json response.body)
    modify (with_sleep polling.sleep_time)
    follow_action polling.action polling.follow_uri
