-- ===== src/Ddi/Session/Keeps/Calls.antt =====
-- What requests, downloads and callbacks keep of the client.
use up2date_cpp.Base.{◌≡◌, refl, ℕ, Bool, Option, none, some, List, [], ◌∷◌, inl, inr, Bool-cases}
use up2date_cpp.Text.{Text}
use up2date_cpp.Outcome.{Exception, Result, ok, throw, fault, HttpError}
use up2date_cpp.Uri.{Uri}
use up2date_cpp.Ddi.State.{Client, apply_restore, apply_signal}
use up2date_cpp.Ddi.Session.Monad.{
  Connection, Method, HttpResult, Reply, Delivery, unreachable, answers, Restore, done, raise, call,
  History, Download, to_file, to_body, to_receiver, Answer, finished, failed, Callback, return,
  raise_from, fetch, send_signal, Environment, Session, M, lift, gets, asks, emit, updated, ◌>>=◌,
  Event, Request, requested, auth_asked, get_stream, try_modify,
}
use up2date_cpp.Ddi.Session.Requests.{
  new_http_client, send, deliver, deliver_all, send_stream, wrapped_request, run_restore,
  resume_restore, ask_auth, is_unauthorized, again, recover, retry_handler, download_to,
  download_with_receiver, fetch_artifact, run_callback, resume_callback,
}
use up2date_cpp.Ddi.Session.Keeps.{
  Keeps, KeptByCalls, keeps_rules, Keeps-pure, Keeps-lift, Keeps-gets, Keeps-asks, Keeps-emit,
  FetchEvent, fetch_asked, fetch_sent, fetch_streamed, fetch_opened, fetch_written, fetch_received,
  with_client, Keeps-if, Keeps-bind,
}

module _ (env : Environment) {Allowed : Event → Type 0} {P : Session → Type 0} where
  module _ (kept : KeptByCalls Allowed P) where
    pub emit-Keeps : (event : Event) → Allowed event → Keeps P (emit event)
    emit-Keeps event allowed = Keeps-emit event (λ s. kept.by_event event s allowed)

    -- Requests of one method are allowed.
    abbrev pub Sends : Method → Type 0
    Sends method = (r : Request) → r.method ≡ method → Allowed (requested r)

    pub send-Keeps :
        (method : Method) (path : Text) (k : Connection)
        → Sends method
        → Keeps P (send env method path k)
    unfolding send
    send-Keeps method path k sends = Keeps-bind (gets _) _ (Keeps-gets _) (λ headers.
        Keeps-bind (asks _) _ (Keeps-asks _)
          (λ result. Keeps-bind (emit _) _ (emit-Keeps _ (sends _ refl)) (λ _. Keeps-pure result)))

    deliver-Keeps :
        (receiver : Text → M Bool) (status : ℕ) (end : HttpError) (pieces : List Text)
        → ((t : Text) → Keeps P (receiver t))
        → Keeps P (deliver env receiver status end pieces)
    unfolding deliver
    deliver-Keeps receiver status end [] kr = search keeps_rules
    deliver-Keeps receiver status end (piece ∷ pieces) kr =
        Keeps-bind (receiver piece) _ (kr piece) (λ wanted.
          Keeps-if wanted _ _ (deliver-Keeps receiver status end pieces kr) (Keeps-pure _))

    deliver_all-Keeps :
        (receiver : Text → M Bool) (d : Delivery)
        → ((t : Text) → Keeps P (receiver t))
        → Keeps P (deliver_all env receiver d)
    unfolding deliver_all
    deliver_all-Keeps receiver (unreachable e) kr = Keeps-pure _
    deliver_all-Keeps receiver (answers status pieces end) kr =
        Keeps-bind (lift _) _ (Keeps-lift _) (λ _. deliver-Keeps receiver status end pieces kr)

    send_stream-Keeps :
        (receiver : Text → M Bool) (path : Text) (k : Connection)
        → Sends get_stream
        → ((t : Text) → Keeps P (receiver t))
        → Keeps P (send_stream env receiver path k)
    unfolding send_stream
    send_stream-Keeps receiver path k sends kr = Keeps-bind (gets _) _ (Keeps-gets _) (λ headers.
        Keeps-bind (asks _) _ (Keeps-asks _) (λ delivery.
          Keeps-bind (emit _) _ (emit-Keeps _ (sends _ refl))
            (λ _. deliver_all-Keeps receiver delivery kr)))

    new_http_client-Keeps : (uri : Uri) → Keeps P (new_http_client env uri)
    unfolding new_http_client
    new_http_client-Keeps uri = search keeps_rules

    wrapped_request-Keeps :
        (uri : Uri) (func : Connection → M HttpResult)
        → ((k : Connection) → Keeps P (func k))
        → Keeps P (wrapped_request env uri func)
    unfolding wrapped_request
    wrapped_request-Keeps uri func kf =
        Keeps-bind (new_http_client env uri) _ (new_http_client-Keeps uri) (λ connection.
          Keeps-bind (func connection) _ (kf connection) (λ result. search keeps_rules))

    resume_restore-Keeps :
        (next : Option Exception → M (Unit {0})) (r : Result Client) (s : Session)
        → ((e : Option Exception) (t : Session) → P t → P (next e t).1)
        → ((d : Client) → r ≡ ok d → P (with_client d s))
        → P s
        → P (resume_restore env next (updated s r)).1
    resume_restore-Keeps next (ok d) s ih new h = ih none (with_client d s) (new d refl)
    resume_restore-Keeps next (throw e) s ih new h = ih (some e) s h
    resume_restore-Keeps next (fault e) s ih new h = h

    run_restore_at : (r : Restore) (s : Session) → P s → P (run_restore env r s).1
    unfolding run_restore try_modify
    run_restore_at done s h = h
    run_restore_at (raise e) s h = h
    run_restore_at (call k next) s h =
        resume_restore-Keeps (λ e. run_restore env (next e)) (apply_restore k s.client) s
          (λ e t. run_restore_at (next e) t) (λ d. kept.by_restore k s d h) h

    module _ (asks_auth : (n : ℕ) → Allowed (auth_asked n)) where
      pub ask_auth-Keeps : (e : Exception) (handler : Option ℕ) → Keeps P (ask_auth env e handler)
      unfolding ask_auth
      ask_auth-Keeps e none = Keeps-lift _
      ask_auth-Keeps e (some handler) = Keeps-bind (asks _) _ (Keeps-asks _) (λ restore.
          Keeps-bind (emit _) _ (emit-Keeps _ (asks_auth handler))
            (λ _. record { at = run_restore_at restore }))

      again-Keeps :
          (uri : Uri) (func : Connection → M HttpResult) (e : Exception)
          → ((k : Connection) → Keeps P (func k))
          → Keeps P (again env uri func e)
      unfolding again
      again-Keeps uri func e kf = Keeps-bind (gets _) _ (Keeps-gets _) (λ handler.
          Keeps-bind (ask_auth env e handler) _ (ask_auth-Keeps e handler)
            (λ _. wrapped_request-Keeps uri func kf))

      recover-Keeps :
          (uri : Uri) (func : Connection → M HttpResult) (r : Result Reply × Session)
          → ((k : Connection) → Keeps P (func k))
          → P r.1
          → P (recover env uri func r).1
      unfolding recover
      recover-Keeps uri func (ok response, s) kf h = h
      recover-Keeps uri func (fault e, s) kf h = h
      recover-Keeps uri func (throw e, s) kf h = elim (Bool-cases (is_unauthorized e)) [
        | inl refused ↦ rw refused ((again-Keeps uri func e kf).at s h)
        | inr other ↦ rw other h
      ]

      pub retry_handler-Keeps :
          (uri : Uri) (func : Connection → M HttpResult)
          → ((k : Connection) → Keeps P (func k))
          → Keeps P (retry_handler env uri func)
      unfolding retry_handler
      retry_handler-Keeps uri func kf = record {
        at = λ s h.
            recover-Keeps uri func (wrapped_request env uri func s) kf
              ((wrapped_request-Keeps uri func kf).at s h);
      }

  -- Where all that a handler's downloads do is allowed.
  module _ (kept : KeptByCalls Allowed P) (fetches : (e : Event) → FetchEvent e → Allowed e) where
    retried-Keeps :
        (uri : Uri) (func : Connection → M HttpResult)
        → ((k : Connection) → Keeps P (func k))
        → Keeps P (retry_handler env uri func)
    retried-Keeps = retry_handler-Keeps kept (λ n. fetches _ (fetch_asked n))

    streamed-Keeps :
        (receiver : Text → M Bool) (path : Text) (k : Connection)
        → ((t : Text) → Keeps P (receiver t))
        → Keeps P (send_stream env receiver path k)
    streamed-Keeps receiver path k =
        send_stream-Keeps kept receiver path k (λ r m. fetches _ (fetch_streamed r m))

    answered-Keeps :
        (event : Event) (answer : History → Bool)
        → FetchEvent event
        → Keeps P (emit event >>= λ _. asks answer)
    answered-Keeps event answer fetched =
        Keeps-bind (emit _) _ (emit-Keeps kept event (fetches _ fetched)) (λ _. Keeps-asks answer)

    download_to-Keeps : (uri : Uri) (path : Text) → Keeps P (download_to env uri path)
    unfolding download_to
    download_to-Keeps uri path =
        Keeps-bind (emit _) _ (emit-Keeps kept _ (fetches _ (fetch_opened path))) (λ _.
          Keeps-bind (retry_handler env uri _) _
            (retried-Keeps uri _
              (λ k. streamed-Keeps _ _ k (λ t. answered-Keeps _ _ (fetch_written path t))))
            (λ _. Keeps-pure _))

    download_with_receiver-Keeps :
        (uri : Uri) (f : History → Bool) → Keeps P (download_with_receiver env uri f)
    unfolding download_with_receiver
    download_with_receiver-Keeps uri f =
        Keeps-bind (retry_handler env uri _) _
          (retried-Keeps uri _
            (λ k. streamed-Keeps _ _ k (λ t. answered-Keeps _ _ (fetch_received t))))
          (λ _. Keeps-pure _)

    fetch_artifact-Keeps : (uri : Uri) (d : Download) → Keeps P (fetch_artifact env uri d)
    fetch_artifact-Keeps uri (to_file path) =
        unfold fetch_artifact in
        Keeps-bind (download_to env uri path) _ (download_to-Keeps uri path) (λ _. Keeps-pure _)
    fetch_artifact-Keeps uri to_body =
        unfold fetch_artifact in
        Keeps-bind (retry_handler env uri _) _
          (retried-Keeps uri _ (λ k. send-Keeps kept _ _ k (λ r m. fetches _ (fetch_sent r m))))
          (λ _. Keeps-pure _)
    fetch_artifact-Keeps uri (to_receiver f) =
        unfold fetch_artifact in
        Keeps-bind (download_with_receiver env uri f) _ (download_with_receiver-Keeps uri f)
          (λ _. Keeps-pure _)

    resume_callback-Keeps :
        {A : Type 0} (next : Answer → M A) (r : Result Text × Session)
        → ((a : Answer) (t : Session) → P t → P (next a t).1)
        → P r.1
        → P (resume_callback env next r).1
    resume_callback-Keeps next (ok t, s) ih h = ih (finished t) s h
    resume_callback-Keeps next (throw e, s) ih h = ih (failed e) s h
    resume_callback-Keeps next (fault e, s) ih h = h

    run_callback_at : {A : Type 0} (c : Callback A) (s : Session) → P s → P (run_callback env c s).1
    unfolding run_callback
    run_callback_at (return a) s h = h
    run_callback_at (raise_from e) s h = h
    run_callback_at (fetch uri how next) s h =
        resume_callback-Keeps (λ a. run_callback env (next a)) (fetch_artifact env uri how s)
          (λ a t. run_callback_at (next a) t) ((fetch_artifact-Keeps uri how).at s h)
    run_callback_at (send_signal signal next) s h =
        run_callback_at next (with_client (apply_signal signal s.client) s)
          (kept.by_signal signal s h)

    pub run_callback-Keeps : {A : Type 0} (c : Callback A) → Keeps P (run_callback env c)
    run_callback-Keeps c = record { at = run_callback_at c }
