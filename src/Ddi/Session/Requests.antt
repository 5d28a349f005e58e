-- ===== src/Ddi/Session/Requests.antt =====
-- Requests of ddi/src/ddi_client_impl.cpp: `newHttpClient`, `checkHttpCode`, `wrappedRequest`,
-- `retryHandler`, and the three downloads.
use up2date_cpp.Base.{
  ℕ, Bool, true, false, not, Option, none, some, List, [], ◌∷◌, ◌++◌, ◌==◌, if◌then◌else◌,
}
use up2date_cpp.Text.{Text, codes, c_str}
use up2date_cpp.Outcome.{
  HttpError, Exception, Result, ok, throw, fault, error_num, is_success, unauthorized,
  http_unexpected_code, http_lib_error,
}
use up2date_cpp.Uri.{Uri}
use up2date_cpp.Ddi.State.{Client, apply_restore, apply_signal}
use up2date_cpp.Ddi.Feedback.{format_download_path}
use up2date_cpp.Ddi.Session.Monad.{
  Connection, Method, get, get_stream, Request, Reply, HttpResult, Delivery, unreachable, answers,
  requested, auth_asked, file_opened, file_written, received, Restore, done, raise, call, Download,
  to_file, to_body, to_receiver, Answer, finished, failed, Callback, return, raise_from, fetch,
  send_signal, Environment, Session, History, M, pure, lift, gets, asks, ◌>>=◌, ◌>>◌, emit,
  try_modify, dereferenced,
}

abbrev pub http_ok : ℕ
http_ok = 200

abbrev pub http_unauthorized : ℕ
http_unauthorized = 401

-- `checkHttpCode`
unfoldable pub check_http_code : ℕ → ℕ → Result (Unit {0})
check_http_code presented expected =
    if presented == http_unauthorized
    then throw unauthorized
    else if not (presented == expected)
    then throw (http_unexpected_code presented expected)
    else ok tt

-- The arguments of the constructor of `httpclient::Client`, and the verification flag, which is
-- not passed on with a key pair.
unfoldable pub connection_of : Client → Uri → Connection
connection_of c u = record {
  server = u.scheme ++ (codes "://" ++ u.authority);
  keypair = if c.tls.is_set then some (c.tls.crt, c.tls.key) else none;
  verify = if c.tls.is_set then none else some c.server_certificate_verify;
}

-- `toHttpLibResult` and its like: no error comes with a response, an error without.
abbrev pub reply : ℕ → Text → HttpResult
reply status body = record {
  response = some (record { status = status; body = body });
  error = HttpError.success;
}

abbrev pub no_reply : HttpError → HttpResult
no_reply e = record { response = none; error = e }

abbrev pub is_unauthorized : Exception → Bool
is_unauthorized unauthorized = true
is_unauthorized _ = false

-- A constructor that throws, or not.
abbrev pub constructed : Option Exception → Result (Unit {0})
constructed none = ok tt
constructed (some e) = throw e

module _ (env : Environment) where
  -- `newHttpClient`
  unfoldable pub new_http_client : Uri → M Connection
  unfolding connection_of
  new_http_client u = do
    connection ← gets (λ c. connection_of c u)
    lift (constructed (env.rejects connection))
    pure connection

  -- A request with no handlers, on a path that is passed as a C string and with the headers that
  -- the client has when it is sent.
  unfoldable pub send : Method → Text → Connection → M HttpResult
  send method path connection = do
    headers ← gets (λ c. c.default_headers)
    let request : Request = record {
      connection = connection;
      method = method;
      path = c_str path;
      headers = headers;
    }
    result ← asks (λ h. env.exchange h request)
    emit (requested request)
    pure result

  -- The pieces of a body go to the receiver until it refuses one.
  unfoldable pub deliver : (Text → M Bool) → ℕ → HttpError → List Text → M HttpResult
  deliver receiver status end [] = pure (if is_success end then reply status [] else no_reply end)
  deliver receiver status end (piece ∷ pieces) = do
    wanted ← receiver piece
    let rest = deliver receiver status end pieces
    if wanted then rest else pure (no_reply HttpError.canceled)

  unfoldable pub deliver_all : (Text → M Bool) → Delivery → M HttpResult
  unfolding deliver check_http_code
  deliver_all receiver (unreachable e) = pure (no_reply e)
  deliver_all receiver (answers status pieces end) = do
    lift (check_http_code status http_ok)
    deliver receiver status end pieces

  -- `Get` with a response handler that calls `checkHttpCode`, and a content receiver.
  unfoldable pub send_stream : (Text → M Bool) → Text → Connection → M HttpResult
  unfolding deliver_all
  send_stream receiver path connection = do
    headers ← gets (λ c. c.default_headers)
    let request : Request = record {
      connection = connection;
      method = get_stream;
      path = c_str path;
      headers = headers;
    }
    delivery ← asks (λ h. env.stream h request)
    emit (requested request)
    deliver_all receiver delivery

  -- `wrappedRequest`
  unfoldable pub wrapped_request : Uri → (Connection → M HttpResult) → M Reply
  unfolding new_http_client check_http_code
  wrapped_request uri func = do
    connection ← new_http_client uri
    result ← func connection
    lift
        (if is_success result.error then ok tt else throw (http_lib_error (error_num result.error)))
    response ← lift (dereferenced result.response)
    lift (check_http_code response.status http_ok)
    pure response

  abbrev pub resume_restore :
      (Option Exception → M (Unit {0})) → Result (Unit {0}) × Session → Result (Unit {0}) × Session
  resume_restore next (ok _, s) = next none s
  resume_restore next (throw e, s) = next (some e) s
  resume_restore next (fault e, s) = (fault e, s)

  -- A user's `onAuthError` makes its calls; an exception of a call is handed to it.
  unfoldable pub run_restore : Restore → M (Unit {0})
  run_restore done s = (ok tt, s)
  run_restore (raise e) s = (throw e, s)
  run_restore (call k next) s =
      resume_restore (λ e. run_restore (next e)) (try_modify (apply_restore k) s)

  -- `authErrorHandler->onAuthError(…)`, or the exception where no handler is set.
  unfoldable pub ask_auth : Exception → Option ℕ → M (Unit {0})
  unfolding run_restore
  ask_auth e none = lift (throw e)
  ask_auth e (some handler) = do
    restore ← asks (λ h. env.on_auth_error handler h)
    emit (auth_asked handler)
    run_restore restore

  -- The `catch (unauthorized_exception &e)` of `retryHandler`, and the second request.
  unfoldable pub again : Uri → (Connection → M HttpResult) → Exception → M Reply
  unfolding ask_auth
  again uri func e = do
    handler ← gets (λ c. c.auth_error_handler)
    ask_auth e handler
    wrapped_request uri func

  unfoldable pub recover :
      Uri → (Connection → M HttpResult) → Result Reply × Session → Result Reply × Session
  unfolding again
  recover uri func (ok response, s) = (ok response, s)
  recover uri func (fault e, s) = (fault e, s)
  recover uri func (throw e, s) = if is_unauthorized e then again uri func e s else (throw e, s)

  -- `retryHandler`: the URI is passed by value, so both requests go to the same server.
  unfoldable pub retry_handler : Uri → (Connection → M HttpResult) → M Reply
  unfolding recover
  retry_handler uri func s = recover uri func (wrapped_request uri func s)

  -- `file.write(data, size); return !file.bad();`
  unfoldable pub write_piece : Text → Text → M Bool
  write_piece path piece = do emit (file_written path piece); asks (λ h. env.write_succeeds h)

  unfoldable pub receive_piece : (History → Bool) → Text → M Bool
  receive_piece func piece = do emit (received piece); asks func

  -- `downloadTo`
  unfoldable pub download_to : Uri → Text → M (Unit {0})
  unfolding write_piece
  download_to uri path = do
    emit (file_opened path)
    retry_handler uri (send_stream (write_piece path) (format_download_path uri))
    pure tt

  -- `getBody`
  unfoldable pub get_body : Uri → M Text
  get_body uri = do
    response ← retry_handler uri (send get (format_download_path uri))
    pure response.body

  -- `downloadWithReceiver`
  unfoldable pub download_with_receiver : Uri → (History → Bool) → M (Unit {0})
  unfolding receive_piece
  download_with_receiver uri func = do
    retry_handler uri (send_stream (receive_piece func) (format_download_path uri))
    pure tt

  -- The methods of `Artifact`, which pass its URI to the client.
  unfoldable pub fetch_artifact : Uri → Download → M Text
  unfolding download_to get_body download_with_receiver
  fetch_artifact uri (to_file path) = download_to uri path >> pure []
  fetch_artifact uri to_body = get_body uri
  fetch_artifact uri (to_receiver func) = download_with_receiver uri func >> pure []

  abbrev pub resume_callback :
      {A : Type 0} → (Answer → M A) → Result Text × Session → Result A × Session
  resume_callback next (ok t, s) = next (finished t) s
  resume_callback next (throw e, s) = next (failed e) s
  resume_callback next (fault e, s) = (fault e, s)

  -- A user's handler makes its calls; an exception of a download is handed to it.
  unfoldable pub run_callback : {A : Type 0} → Callback A → M A
  unfolding fetch_artifact
  run_callback (return a) s = (ok a, s)
  run_callback (raise_from e) s = (throw e, s)
  run_callback (fetch uri how next) s =
      resume_callback (λ a. run_callback (next a)) (fetch_artifact uri how s)
  run_callback (send_signal signal next) s =
      run_callback next (record s { client = apply_signal signal s.client })
