-- ===== src/Ddi/Session/Retry.antt =====
-- What `retryHandler` sends: one request, or, after a 401 and a call of the handler that restores
-- the credentials, a second one whose outcome is final.
use up2date_cpp.Base.{
  ℕ, ◌≡◌, ◌≢◌, refl, ◌∙◌, ap, sym, Option, none, some, ◌∷◌, if◌then◌else◌, arith,
}
use up2date_cpp.Text.{Text, c_str}
use up2date_cpp.Outcome
use up2date_cpp.Outcome.{
  Exception, Fault, Result, ok, throw, fault, error_num, is_success, unauthorized, http_lib_error,
}
use up2date_cpp.Uri.{Uri}
use up2date_cpp.Ddi.State.{Client, apply_restore}
use up2date_cpp.Ddi.Session.Monad.{
  Connection, Method, Request, Reply, HttpResult, requested, auth_asked, History, Restore, done,
  raise, call, Environment, Session, M, ◌>>=◌, lift, pure, try_modify, dereferenced, updated,
  continue,
}
use up2date_cpp.Ddi.Session.Keeps.{told}
use up2date_cpp.Ddi.Session.Requests.{
  http_ok, check_http_code, constructed, connection_of, new_http_client, send, wrapped_request,
  run_restore, resume_restore, ask_auth, again, recover, retry_handler,
}

-- The judgement on an answer: an error, a missing response, a code other than 200, or the response.
abbrev accept_response : Reply → Result Reply
accept_response response =
    Outcome.◌>>=◌ (check_http_code response.status http_ok) (λ _. ok response)

abbrev pub judge : HttpResult → Result Reply
judge result =
    if is_success result.error
    then Outcome.◌>>=◌ (dereferenced result.response) accept_response
    else throw (http_lib_error (error_num result.error))

-- The request that a client makes on behalf of a URI.
abbrev pub request_of : Client → Uri → Method → Text → Request
request_of c u method path = record {
  connection = connection_of c u;
  method = method;
  path = c_str path;
  headers = c.default_headers;
}

-- What a constructor that throws leaves: its exception, and nothing sent.
abbrev reply_if : Option Exception → Result Reply → Result Reply
reply_if none reply = reply
reply_if (some e) reply = throw e

abbrev sent_if : Option Exception → Request → Session → Session
sent_if none request s = told (requested request) s
sent_if (some e) request s = s

accepted_if :
    (o : Option Exception) (request : Request) (s : Session) (reply : Result Reply)
    {response : Reply}
    → reply_if o reply ≡ ok response
    → ◌≡◌ {A = Result Reply × Session}
        (reply_if o reply, sent_if o request s)
        (ok response, told (requested request) s)
accepted_if none request s reply e = ap (λ r. (r, told (requested request) s)) e
accepted_if (some x) request s reply e = cc

module _ (env : Environment) where
  -- What becomes of a request from the history `h`, and what is sent.
  abbrev pub reply_to : History → Request → Result Reply
  reply_to h request = reply_if (env.rejects request.connection) (judge (env.exchange h request))

  abbrev pub attempt : Request → Session → Result Reply × Session
  attempt request s =
      (reply_to s.history request, sent_if (env.rejects request.connection) request s)

  pub attempt_ok :
      (request : Request) (s : Session) (response : Reply)
      → reply_to s.history request ≡ ok response
      → attempt request s ≡ (ok response, told (requested request) s)
  attempt_ok request s response e =
      accepted_if (env.rejects request.connection) request s
        (judge (env.exchange s.history request)) e

  -- A function for `retryHandler` that makes one request, of the client as it is then, on the
  -- connection that it is given.
  pub record OneRequest (u : Uri) (func : Connection → M HttpResult) (make : Client → Request)
      : Type 0 where
    pub connects : (c : Client) → (make c).connection ≡ connection_of c u
    pub sends :
        (s : Session)
        → func (connection_of s.client u) s
          ≡ (ok (env.exchange s.history (make s.client)), told (requested (make s.client)) s)

  pub send-OneRequest :
      (u : Uri) (method : Method) (path : Text)
      → OneRequest u (send env method path) (λ c. request_of c u method path)
  unfolding send ◌>>=◌
  send-OneRequest u method path = record { connects = λ c. refl; sends = λ s. refl }

  abbrev pub judging : HttpResult → M Reply
  judging result =
      lift
        (if is_success result.error then ok tt else throw (http_lib_error (error_num result.error)))
      >>= λ _. lift (dereferenced result.response) >>= λ response.
          lift (check_http_code response.status http_ok) >>= λ _. pure response

  pub judging_lem : (result : HttpResult) (s : Session) → judging result s ≡ (judge result, s)
  unfolding ◌>>=◌ lift pure
  judging_lem result s = ground arith

  wrapped_if :
      (func : Connection → M HttpResult) (k : Connection) (s : Session) (request : Request)
      (result : HttpResult) (o : Option Exception)
      → func k s ≡ (ok result, told (requested request) s)
      → continue
          (λ connection. func connection >>= judging)
          (continue (λ _. pure k) (constructed o, s))
        ≡ (reply_if o (judge result), sent_if o request s)
  unfolding ◌>>=◌ pure
  wrapped_if func k s request result none e =
      ap (continue judging) e ∙ judging_lem result (told (requested request) s)
  wrapped_if func k s request result (some x) e = refl

  -- One wrapped request is one attempt.
  pub wrapped_request-attempt :
      (u : Uri) (func : Connection → M HttpResult) (make : Client → Request)
      → OneRequest u func make
      → (s : Session) → wrapped_request env u func s ≡ attempt (make s.client) s
  unfolding wrapped_request new_http_client ◌>>=◌
  wrapped_request-attempt u func make one s =
      let request = make s.client in
      let result = env.exchange s.history request in
      wrapped_if func (connection_of s.client u) s request result _ (one.sends s)
      ∙ ap (λ k. (reply_if (env.rejects k) (judge result), sent_if (env.rejects k) request s))
          (sym (one.connects s.client))

  -- Restoring credentials sends nothing.
  resume_restore-history :
      (next : Option Exception → M (Unit {0})) (r : Result Client) (s : Session)
      → ((e : Option Exception) (t : Session) → (next e t).1.history ≡ t.history)
      → (resume_restore env next (updated s r)).1.history ≡ s.history
  resume_restore-history next (ok d) s ih = ih none (record s { client = d })
  resume_restore-history next (throw e) s ih = ih (some e) s
  resume_restore-history next (fault e) s ih = refl

  pub run_restore-history :
      (r : Restore) (s : Session) → (run_restore env r s).1.history ≡ s.history
  unfolding run_restore try_modify
  run_restore-history done s = refl
  run_restore-history (raise e) s = refl
  run_restore-history (call k next) s =
      resume_restore-history (λ e. run_restore env (next e)) (apply_restore k s.client) s
        (λ e t. run_restore-history (next e) t)

  -- The session in which the handler `n` is called.
  abbrev pub with_asked : ℕ → Session → Session
  with_asked n s = record s { history = auth_asked n ∷ s.history }

  module _ (u : Uri) (func : Connection → M HttpResult) (n : ℕ) (s t : Session) where
    ask_auth_restored :
        run_restore env (env.on_auth_error n s.history) (with_asked n s) ≡ (ok tt, t)
        → ask_auth env unauthorized (some n) s ≡ (ok tt, t)
    unfolding ask_auth ◌>>=◌
    ask_auth_restored restored = restored

    again_restored :
        s.client.auth_error_handler ≡ some n
        → run_restore env (env.on_auth_error n s.history) (with_asked n s) ≡ (ok tt, t)
        → again env u func unauthorized s ≡ wrapped_request env u func t
    unfolding again ◌>>=◌
    again_restored handler restored =
        let second = continue (λ _. wrapped_request env u func) in
        ap (λ o. second (ask_auth env unauthorized o s)) handler
        ∙ ap second (ask_auth_restored restored)

    -- After a 401 and a handler that returned, the call is the second request.
    pub retry_handler_restored :
        (start : Session)
        → wrapped_request env u func start ≡ (throw unauthorized, s)
        → s.client.auth_error_handler ≡ some n
        → run_restore env (env.on_auth_error n s.history) (with_asked n s) ≡ (ok tt, t)
        → retry_handler env u func start ≡ wrapped_request env u func t
    unfolding retry_handler recover
    retry_handler_restored start refused handler restored =
        ap (recover env u func) refused ∙ again_restored handler restored

  module _ (make : Client → Request) (s : Session) where
    -- The first attempt, and the session in which the handler `n` is called behind it.
    abbrev first : Result Reply × Session
    first = attempt (make s.client) s

    abbrev asked : ℕ → Session
    asked n = with_asked n first.1

    -- The first attempt got a 401, and there is a handler.
    pub record Refused (n : ℕ) : Type 0 where
      pub refused : first.0 ≡ throw unauthorized
      pub handler : first.1.client.auth_error_handler ≡ some n

    -- The run of the handler, with the calls that it makes back into the client.
    abbrev restored : ℕ → Result (Unit {0}) × Session
    restored n = run_restore env (env.on_auth_error n first.1.history) (asked n)

    -- What `retryHandler` comes to: one attempt, that is no 401, or a 401 that stands where there
    -- is no handler; or, behind a 401 and the run of the handler, its exception or fault; or the
    -- second attempt, made of the client that the handler left, whose outcome is final.
    pub data Trace : Result Reply × Session → Type 0 where
      once : (r : Result Reply) → first.0 ≡ r → r ≢ throw unauthorized → Trace (r, first.1)
      unasked :
          first.0 ≡ throw unauthorized
          → first.1.client.auth_error_handler ≡ none
          → Trace (throw unauthorized, first.1)
      raised :
          (n : ℕ) (e : Exception) (t : Session)
          → Refused n
          → restored n ≡ (throw e, t)
          → Trace (throw e, t)
      broken :
          (n : ℕ) (x : Fault) (t : Session)
          → Refused n
          → restored n ≡ (fault x, t)
          → Trace (fault x, t)
      twice :
          (n : ℕ) (t : Session)
          → Refused n
          → restored n ≡ (ok tt, t)
          → Trace (attempt (make t.client) t)

    module _ (u : Uri) (func : Connection → M HttpResult) (one : OneRequest u func make) where
      again-Trace :
          (n : ℕ) (r : Result (Unit {0}) × Session)
          → Refused n
          → restored n ≡ r
          → Trace (continue (λ _. wrapped_request env u func) r)
      again-Trace n (ok _, t) refused e =
          rw (wrapped_request-attempt u func make one t) (twice n t refused e)
      again-Trace n (throw x, t) refused e = raised n x t refused e
      again-Trace n (fault x, t) refused e = broken n x t refused e

      asked-Trace :
          (handler : Option ℕ)
          → first.0 ≡ throw unauthorized
          → first.1.client.auth_error_handler ≡ handler
          → Trace (
              continue
                (λ _. wrapped_request env u func)
                (ask_auth env unauthorized handler first.1))
      unfolding ask_auth ◌>>=◌ lift
      asked-Trace none refused e = unasked refused e
      asked-Trace (some n) refused e =
          again-Trace n (restored n) (record { refused = refused; handler = e }) refl

      recover-Trace : (r : Result Reply) → first.0 ≡ r → Trace (recover env u func (r, first.1))
      unfolding recover again ◌>>=◌
      recover-Trace (ok response) e = once (ok response) e (λ h. cc)
      recover-Trace (fault x) e = once (fault x) e (λ h. cc)
      recover-Trace (throw unauthorized) e = asked-Trace first.1.client.auth_error_handler e refl
      recover-Trace (throw x) e = once (throw x) e (λ h. cc)

      -- Whatever the server answers and the handler calls, `retryHandler` makes one attempt at the
      -- request, or, only after the exception for a 401 and the return of the handler, a second
      -- one, for the same URI and with the credentials of the client that the handler left; it
      -- never makes a third. Its outcome is the one of the last attempt, or the handler's
      -- exception. This is so for each function that makes one request of the client, without
      -- handlers of a content: the plain methods on a path, and the request of a poll.
      pub retry_handler-Trace : Trace (retry_handler env u func s)
      unfolding retry_handler
      retry_handler-Trace =
          rw (wrapped_request-attempt u func make one s) (recover-Trace first.0 refl)
