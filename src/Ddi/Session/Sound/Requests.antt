-- ===== src/Ddi/Session/Sound/Requests.antt =====
-- Requests over the Unix client: none ends in a fault, and each result has its response.
use up2date_cpp.Base.{
  ◌≡◌, refl, Bool, true, false, if◌then◌else◌, Option, none, some, List, [], ◌∷◌, inl, inr,
  Bool-cases, ℕ,
}
use up2date_cpp.Text.{Text}
use up2date_cpp.Outcome.{Exception, Result, ok, throw, fault, HttpError, is_success}
use up2date_cpp.Uri.{Uri}
use up2date_cpp.Ddi.State.{Client, apply_restore}
use up2date_cpp.Ddi.Session.Monad.{
  Connection, Method, Reply, HttpResult, Delivery, unreachable, answers, Restore, done, raise, call,
  Environment, Session, M, lift, gets, asks, emit, updated, try_modify,
}
use up2date_cpp.Ddi.Session.Requests.{
  reply, no_reply, http_ok, constructed, new_http_client, send, deliver, deliver_all, send_stream,
  wrapped_request, run_restore, resume_restore, ask_auth, is_unauthorized, again, recover,
  retry_handler,
}
use up2date_cpp.Ddi.Session.Sound.Rules.{
  Fine, Gives, Anything, Complete, Gives-pure, Gives-lift, Gives-gets, Gives-asks, Gives-emit,
  Gives-if, Gives-bind,
}
use up2date_cpp.Ddi.Session.Sound.{
  OverUnix, to_http_lib_result-Complete, apply_restore-Fine, check_http_code-Fine, checked-Fine,
  dereferenced-Fine,
}

module _ (env : Environment) (unix : OverUnix env) where
  pub send-Gives :
      (method : Method) (path : Text) (k : Connection) → Gives Complete (send env method path k)
  unfolding send
  send-Gives method path k =
      Gives-bind (gets _) _ (Gives-gets {Q = Anything} _ (λ c. tt)) (λ headers q.
        Gives-bind (asks _) _
          (Gives-asks {Q = Complete} _
            (λ h. let (raw, e) = unix.exchanged h _ in to_http_lib_result-Complete raw _ e))
          (λ result complete.
            Gives-bind (emit _) _ (Gives-emit _) (λ _ _. Gives-pure result complete)))

  Complete-ended :
      (status : ℕ) (end : HttpError)
      → Complete (if is_success end then reply status [] else no_reply end)
  Complete-ended status end = elim (Bool-cases (is_success end)) [
    | inl success ↦ rw success (λ _. (_, refl))
    | inr failure ↦ rw failure (λ success. cc)
  ]

  deliver-Gives :
      (receiver : Text → M Bool) (status : ℕ) (end : HttpError) (pieces : List Text)
      → ((t : Text) → Gives Anything (receiver t))
      → Gives Complete (deliver env receiver status end pieces)
  unfolding deliver
  deliver-Gives receiver status end [] g = Gives-pure _ (Complete-ended status end)
  deliver-Gives receiver status end (piece ∷ pieces) g =
      Gives-bind (receiver piece) _ (g piece) (λ wanted q.
        Gives-if wanted _ _ (deliver-Gives receiver status end pieces g)
          (Gives-pure _ (λ success. cc)))

  deliver_all-Fine :
      (receiver : Text → M Bool) (d : Delivery)
      → ((t : Text) → Gives Anything (receiver t))
      → ((e : HttpError) → d ≡ unreachable e → is_success e ≡ false)
      → Gives Complete (deliver_all env receiver d)
  unfolding deliver_all
  deliver_all-Fine receiver (unreachable e) g failing =
      Gives-pure _ (λ success. let failure = failing e refl in cc)
  deliver_all-Fine receiver (answers status pieces end) g failing =
      Gives-bind (lift _) _ (Gives-lift _ (check_http_code-Fine status http_ok))
        (λ _ _. deliver-Gives receiver status end pieces g)

  pub send_stream-Gives :
      (receiver : Text → M Bool) (path : Text) (k : Connection)
      → ((t : Text) → Gives Anything (receiver t))
      → Gives Complete (send_stream env receiver path k)
  unfolding send_stream
  send_stream-Gives receiver path k g =
      Gives-bind (gets _) _ (Gives-gets {Q = Anything} _ (λ c. tt)) (λ headers q.
        Gives-bind (asks _) _
          (Gives-asks {Q = λ d. (e : HttpError) → d ≡ unreachable e → is_success e ≡ false} _
            (λ h. unix.streamed h _))
          (λ delivery failing.
            Gives-bind (emit _) _ (Gives-emit _)
              (λ _ _. deliver_all-Fine receiver delivery g failing)))

  constructed-Fine : (o : Option Exception) → Fine Anything (constructed o)
  constructed-Fine none = tt
  constructed-Fine (some e) = tt

  new_http_client-Gives : (uri : Uri) → Gives Anything (new_http_client env uri)
  unfolding new_http_client
  new_http_client-Gives uri =
      Gives-bind (gets _) _ (Gives-gets {Q = Anything} _ (λ c. tt)) (λ connection _.
        Gives-bind (lift _) _ (Gives-lift {Q = Anything} _ (constructed-Fine _))
          (λ _ _. Gives-pure connection tt))

  wrapped_request-Gives :
      (uri : Uri) (func : Connection → M HttpResult)
      → ((k : Connection) → Gives Complete (func k))
      → Gives Anything (wrapped_request env uri func)
  unfolding wrapped_request
  wrapped_request-Gives uri func g =
      Gives-bind (new_http_client env uri) _ (new_http_client-Gives uri) (λ connection _.
        Gives-bind (func connection) _ (g connection) (λ result complete.
          Gives-bind (lift _) _
            (Gives-lift {Q = λ _. is_success result.error ≡ true} _ (checked-Fine _ _))
            (λ _ success.
              Gives-bind (lift _) _
                (Gives-lift {Q = Anything} _ (dereferenced-Fine result complete success))
                (λ response _.
                  Gives-bind (lift _) _
                    (Gives-lift {Q = Anything} _ (check_http_code-Fine response.status http_ok))
                    (λ _ _. Gives-pure response tt)))))

  resume_restore-Fine :
      (next : Option Exception → M (Unit {0})) (r : Result Client) (s : Session)
      → ((e : Option Exception) (t : Session) → Fine Anything (next e t).0)
      → Fine Anything r
      → Fine Anything (resume_restore env next (updated s r)).0
  resume_restore-Fine next (ok d) s ih f = ih none _
  resume_restore-Fine next (throw e) s ih f = ih (some e) s
  resume_restore-Fine next (fault x) s ih f = f

  run_restore-Fine : (r : Restore) (s : Session) → Fine Anything (run_restore env r s).0
  unfolding run_restore try_modify
  run_restore-Fine done s = tt
  run_restore-Fine (raise e) s = tt
  run_restore-Fine (call k next) s =
      resume_restore-Fine (λ e. run_restore env (next e)) (apply_restore k s.client) s
        (λ e t. run_restore-Fine (next e) t) (apply_restore-Fine k s.client)

  ask_auth-Gives : (e : Exception) (handler : Option ℕ) → Gives Anything (ask_auth env e handler)
  unfolding ask_auth
  ask_auth-Gives e none = Gives-lift _ tt
  ask_auth-Gives e (some handler) =
      Gives-bind (asks _) _ (Gives-asks {Q = Anything} _ (λ h. tt)) (λ restore _.
        Gives-bind (emit _) _ (Gives-emit _) (λ _ _. record { fine = run_restore-Fine restore }))

  module _ (uri : Uri) (func : Connection → M HttpResult) where
    again-Gives :
        (e : Exception)
        → ((k : Connection) → Gives Complete (func k))
        → Gives Anything (again env uri func e)
    unfolding again
    again-Gives e g = Gives-bind (gets _) _ (Gives-gets {Q = Anything} _ (λ c. tt)) (λ handler _.
        Gives-bind (ask_auth env e handler) _ (ask_auth-Gives e handler)
          (λ _ _. wrapped_request-Gives uri func g))

    recover-Fine :
        (r : Result Reply × Session)
        → ((k : Connection) → Gives Complete (func k))
        → Fine Anything r.0
        → Fine Anything (recover env uri func r).0
    unfolding recover
    recover-Fine (ok response, s) g f = tt
    recover-Fine (fault x, s) g f = f
    recover-Fine (throw e, s) g f = elim (Bool-cases (is_unauthorized e)) [
      | inl refused ↦ rw refused ((again-Gives e g).fine s)
      | inr other ↦ rw other tt
    ]

    pub retry_handler-Gives :
        ((k : Connection) → Gives Complete (func k)) → Gives Anything (retry_handler env uri func)
    unfolding retry_handler
    retry_handler-Gives g = record {
      fine = λ s. recover-Fine _ g ((wrapped_request-Gives uri func g).fine s);
    }
