-- ===== src/Ddi/Poll/Keeps.antt =====
-- What a poll keeps of a session: a property that the calls back into the client and the settings
-- of the poll keep is kept by the whole poll, however it ends.
use up2date_cpp.Base.{ℕ, Bool, Option, none, some, [], ◌∷◌, inl, inr, Bool-cases}
use up2date_cpp.Base.Int.{ℤ}
use up2date_cpp.Text.{Text}
use up2date_cpp.Outcome.{Result, ok, throw, fault}
use up2date_cpp.Multimap.{Multimap}
use up2date_cpp.Uri.{Uri}
use up2date_cpp.Json.{RapidJson}
use up2date_cpp.Ddi.Response.{Response, ConfigResponse}
use up2date_cpp.Ddi.State.{Client}
use up2date_cpp.Ddi.Payload.Polling.{
  Action, get_config_data, cancel_action, deployment_base, no_action,
}
use up2date_cpp.Ddi.Session.Monad.{
  Connection, Method, HttpResult, Event, Callback, M, Environment, Session, modify, emit,
  undelivered,
}
use up2date_cpp.Ddi.Session.Keeps.{
  Keeps, KeptByCalls, with_client, keeps_rules, Keeps-pure, Keeps-modify,
}
use up2date_cpp.Ddi.Session.Keeps.Calls.{
  emit-Keeps, send-Keeps, retry_handler-Keeps, run_callback-Keeps,
}
use up2date_cpp.Ddi.Session.Requests.{send, retry_handler, run_callback}
use up2date_cpp.Ddi.Poll.{
  event_handler, put_config, put_unless_empty, follow_config_data, get_action, post_feedback,
  tell_listener, is_unexpected_code, catch_code, try_feedback, deliver_feedback, send_feedback,
  follow_cancel_action, follow_deployment_base, tell_no_actions, follow_action, get_poll, do_poll,
  set_ignore, with_sleep,
}

-- The settings that a poll makes in its client.
abbrev pub with_ignore : Bool → Client → Client
with_ignore b c = record c { ignore_sleep = b }

abbrev pub with_time : ℤ → Client → Client
with_time time c = record c { current_sleep_time = time }

pub record KeptByPolls (P : Session → Type 0) : Type 0 where
  pub by_calls : KeptByCalls (λ _. Unit {0}) P
  pub by_ignore : (b : Bool) (s : Session) → P s → P (with_client (with_ignore b s.client) s)
  pub by_time : (time : ℤ) (s : Session) → P s → P (with_client (with_time time s.client) s)

module _ (json : RapidJson) (env : Environment) {P : Session → Type 0} (kept : KeptByPolls P) where
  send-Kept : (method : Method) (path : Text) (k : Connection) → Keeps P (send env method path k)
  send-Kept method path k = send-Keeps env kept.by_calls method path k (λ r m. tt)

  retried-Kept :
      (uri : Uri) (func : Connection → M HttpResult)
      → ((k : Connection) → Keeps P (func k))
      → Keeps P (retry_handler env uri func)
  retried-Kept = retry_handler-Keeps env kept.by_calls (λ n. tt)

  callback-Kept : {A : Type 0} (c : Callback A) → Keeps P (run_callback env c)
  callback-Kept = run_callback-Keeps env kept.by_calls (λ e fetched. tt)

  emit-Kept : (event : Event) → Keeps P (emit event)
  emit-Kept event = emit-Keeps env kept.by_calls event tt

  event_handler-Keeps : Keeps P (event_handler json env)
  unfolding event_handler
  event_handler-Keeps = search keeps_rules

  pub set_ignore-Keeps : (b : Bool) → Keeps P (set_ignore b)
  set_ignore-Keeps b = Keeps-modify _ (kept.by_ignore b)

  put_config-Keeps : (uri : Uri) (req : ConfigResponse) → Keeps P (put_config json env uri req)
  unfolding put_config
  put_config-Keeps uri req = search (keeps_rules, retried-Kept, send-Kept, set_ignore-Keeps)

  put_unless_empty-Keeps :
      (m : Multimap) (uri : Uri) (req : ConfigResponse)
      → Keeps P (put_unless_empty json env m uri req)
  unfolding put_unless_empty
  put_unless_empty-Keeps [] uri req = Keeps-pure tt
  put_unless_empty-Keeps (x ∷ m) uri req = put_config-Keeps uri req

  follow_config_data-Keeps : (uri : Uri) → Keeps P (follow_config_data json env uri)
  unfolding follow_config_data
  follow_config_data-Keeps uri =
      search (keeps_rules, event_handler-Keeps, emit-Kept, callback-Kept, put_unless_empty-Keeps)
        depth 9

  get_action-Keeps : (uri : Uri) → Keeps P (get_action json env uri)
  unfolding get_action
  get_action-Keeps uri = retried-Kept uri _ (λ k. send-Kept _ _ k)

  post_feedback-Keeps :
      (uri : Uri) (body : Text) (k : Connection) → Keeps P (post_feedback json env uri body k)
  unfolding post_feedback
  post_feedback-Keeps uri body k = search (keeps_rules, send-Kept)

  tell_listener-Keeps : (listener : Option ℕ) → Keeps P (tell_listener json env listener)
  tell_listener-Keeps none = Keeps-pure tt
  tell_listener-Keeps (some n) = emit-Kept _

  try_feedback-Keeps :
      (uri : Uri) (body : Text) (listener : Option ℕ)
      → Keeps P (try_feedback json env uri body listener)
  unfolding try_feedback
  try_feedback-Keeps uri body listener =
      search (keeps_rules, retried-Kept, post_feedback-Keeps, tell_listener-Keeps)

  catch_code-Keeps :
      (listener : Option ℕ) (r : Result (Unit {0}) × Session)
      → P r.1
      → P (catch_code json env listener r).1
  catch_code-Keeps listener (ok a, s) h = unfold catch_code in h
  catch_code-Keeps listener (fault e, s) h = unfold catch_code in h
  catch_code-Keeps none (throw e, s) h = unfold catch_code in h
  catch_code-Keeps (some n) (throw e, s) h = elim (Bool-cases (is_unexpected_code json env e)) [
    | inl caught ↦ unfold catch_code in rw caught ((emit-Kept (undelivered n)).at s h)
    | inr other ↦ unfold catch_code in rw other h
  ]

  deliver_feedback-Keeps :
      (uri : Uri) (body : Text) (listener : Option ℕ)
      → Keeps P (deliver_feedback json env uri body listener)
  deliver_feedback-Keeps uri body listener =
      unfold deliver_feedback in
      record {
        at = λ s h. catch_code-Keeps listener _ ((try_feedback-Keeps uri body listener).at s h);
      }

  pub send_feedback-Keeps :
      (uri : Uri) (id : ℤ) (answer : Option Response)
      → Keeps P (send_feedback json env uri id answer)
  unfolding send_feedback
  send_feedback-Keeps uri id answer =
      search (keeps_rules, deliver_feedback-Keeps, set_ignore-Keeps) depth 8

  follow_cancel_action-Keeps : (uri : Uri) → Keeps P (follow_cancel_action json env uri)
  unfolding follow_cancel_action
  follow_cancel_action-Keeps uri =
      search
        (
          keeps_rules, get_action-Keeps, event_handler-Keeps, emit-Kept, callback-Kept,
          send_feedback-Keeps,
        )
        depth 12

  follow_deployment_base-Keeps : (uri : Uri) → Keeps P (follow_deployment_base json env uri)
  unfolding follow_deployment_base
  follow_deployment_base-Keeps uri =
      search
        (
          keeps_rules, get_action-Keeps, event_handler-Keeps, emit-Kept, callback-Kept,
          send_feedback-Keeps,
        )
        depth 12

  tell_no_actions-Keeps : Keeps P (tell_no_actions json env)
  unfolding tell_no_actions
  tell_no_actions-Keeps =
      search (keeps_rules, event_handler-Keeps, emit-Kept, callback-Kept) depth 8

  follow_action-Keeps : (a : Action) (uri : Uri) → Keeps P (follow_action json env a uri)
  follow_action-Keeps no_action uri = unfold follow_action in tell_no_actions-Keeps
  follow_action-Keeps get_config_data uri = unfold follow_action in follow_config_data-Keeps uri
  follow_action-Keeps cancel_action uri = unfold follow_action in follow_cancel_action-Keeps uri
  follow_action-Keeps deployment_base uri = unfold follow_action in follow_deployment_base-Keeps uri

  get_poll-Keeps : (k : Connection) → Keeps P (get_poll json env k)
  unfolding get_poll
  get_poll-Keeps k = search (keeps_rules, send-Kept)

  with_sleep-Keeps : (sleep : ℤ) → Keeps P (modify (with_sleep json env sleep))
  with_sleep-Keeps sleep = Keeps-modify _ (λ s. kept.by_time _ s)

  pub do_poll-Keeps : Keeps P (do_poll json env)
  unfolding do_poll
  do_poll-Keeps =
      search (keeps_rules, retried-Kept, get_poll-Keeps, with_sleep-Keeps, follow_action-Keeps)
        depth 9
