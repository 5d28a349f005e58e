-- ===== src/Win/Request/Succeeds.antt =====
-- A whole `do_http_request_ctx` where the calls of WinHTTP succeed.
use up2date_cpp.Base.{
  ℕ, ◌<◌, ◌≡◌, refl, ◌∙◌, ap, Bool, true, false, inl, inr, Bool-cases, Option, some, List, ◌∷◌,
  length, if◌then◌else◌,
}
use up2date_cpp.Text.{Text}
use up2date_cpp.Outcome.{Result, ok, throw, fault}
use up2date_cpp.Win.Host.{HostData, extract_data_from_host, port_word}
use up2date_cpp.Win.Api.{
  Resource, number, session, connection, request, host_text, method_text, path_text, headers_text,
  Call, called, open_session, connect_to, open_request, set_certificate, ignore_checks,
  send_request, receive_response, acquired, released, status_asked, got, goto_clean, WinHttp,
  WinHistory, WinState, Jump, go, clean_with, thrown, crashed, unfinished, Proc, and_then, ◌>>=◌,
  proceed, note, acquire, release_if,
}
use up2date_cpp.Win.Request.{
  RequestConfig, Handlers, handled, handle, of_result, call, ask_status, receive_loop, receive_if,
  exchange, request_body, clean, finish, started, do_http_request_ctx, RequestEnd,
}
use up2date_cpp.Win.Request.Delivers.{Sends, deliver, delivered, seen, shown, receive_loop-deliver}

-- Every call succeeds.
pub record Succeeds (win : WinHttp) : Type 0 where
  pub success : (h : WinHistory) (c : Call) → win.answer h c ≡ got tt

-- What the request did until it asked for the status: the session and the connection to the host
-- and the port, the request with its method, path and security, the certificate of a secure
-- request, the checks that are switched off, the headers and the body, the last event first.
abbrev pub asked_history : WinHttp → RequestConfig → Bool → HostData → WinHistory → WinHistory
asked_history win config with_certificate target h =
    let opened : WinHistory =
      acquired request
      ∷ called (open_request (win.widen config.method) (win.widen config.path) target.is_https)
      ∷ acquired path_text
      ∷ acquired method_text
      ∷ acquired connection
      ∷ called (connect_to (win.widen target.host) (port_word target.port))
      ∷ acquired host_text
      ∷ acquired session
      ∷ called open_session
      ∷ h in
    let secured : WinHistory =
      if target.is_https then called (set_certificate with_certificate) ∷ opened else opened in
    let checked : WinHistory = if config.verify then secured else called ignore_checks ∷ secured in
    called receive_response
    ∷ called (send_request (win.widen config.headers) config.body)
    ∷ acquired headers_text
    ∷ checked

module _ {C : Type 0} where
  abbrev pub after_release : Resource → WinState C → WinState C
  after_release r s = record s {
    history = if s.pointers (number r) then released r ∷ s.history else s.history;
  }

  pub release_if_lem : (r : Resource) (s : WinState C) → release_if r s ≡ (go tt, after_release r s)
  unfolding release_if note proceed
  release_if_lem r s = elim (Bool-cases (s.pointers (number r))) [
    | inl set ↦ rw set refl
    | inr null ↦ rw null refl
  ]

  clean_context : (s : WinState C) → (clean s).1.context ≡ s.context
  unfolding clean ◌>>=◌
  clean_context s =
      rw
        (
          release_if_lem host_text,
          release_if_lem method_text,
          release_if_lem path_text,
          release_if_lem headers_text,
          release_if_lem request,
          release_if_lem connection,
          release_if_lem session,
        )
        refl

  abbrev pub seen_end : RequestEnd C → Option (Result ℕ) × C
  seen_end e = (e.outcome, e.context)

  finish-seen : (r : Jump ℕ × WinState C) → seen_end (finish clean r) ≡ seen r
  unfolding finish
  finish-seen (go code, t) = ap (λ c. (some (ok code), c)) (clean_context t)
  finish-seen (clean_with code, t) = ap (λ c. (some (ok code), c)) (clean_context t)
  finish-seen (thrown e, t) = refl
  finish-seen (crashed x, t) = refl
  finish-seen (unfinished, t) = refl

  bind_go :
      {A B : Type 0} (m : Proc C A) (f : A → Proc C B) (s t : WinState C) (a : A)
      → m s ≡ (go a, t)
      → (m >>= f) s ≡ f a t
  unfolding ◌>>=◌
  bind_go m f s t a e = rw e refl

module _ (win : WinHttp) (works : Succeeds win) {C : Type 0} where
  pub call_lem :
      (c : Call) (s : WinState C)
      → call win c s ≡ (go tt, record s { history = called c ∷ s.history })
  unfolding call ◌>>=◌ note proceed
  call_lem c s = rw (works.success s.history c) refl

  -- A call that is made only under a condition.
  call_unless :
      (b : Bool) (c : Call) (s : WinState C)
      → (if b then proceed tt else call win c) s
        ≡ (go tt, record s { history = if b then s.history else called c ∷ s.history })
  unfolding proceed
  call_unless true c s = refl
  call_unless false c s = call_lem c s

  call_when :
      (b : Bool) (c : Call) (s : WinState C)
      → (if b then call win c else proceed tt) s
        ≡ (go tt, record s { history = if b then called c ∷ s.history else s.history })
  unfolding proceed
  call_when true c s = call_lem c s
  call_when false c s = refl

  module _ (handlers : Handlers C) (config : RequestConfig) (with_certificate : Bool) where
    received :
        (fuel : ℕ) (pieces : List Text) (r : Result Bool × C) (s : WinState C)
        → Sends win s.history pieces
        → length pieces < fuel
        → seen (and_then (handled r s) (receive_if win handlers (receive_loop win handlers fuel)))
          ≡ shown (delivered handlers.content_receiver (deliver handlers.content_receiver pieces) r)
    unfolding goto_clean
    received fuel pieces (ok true, c) s sends h =
        receive_loop-deliver win handlers fuel pieces (record s { context = c }) h sends
    received fuel pieces (ok false, c) s sends h = refl
    received fuel pieces (throw e, c) s sends h = refl
    received fuel pieces (fault x, c) s sends h = refl

    -- Where every call succeeds, the host can be read from the authority, the system has a status
    -- code, and then the pieces of the content, each within its buffer: a request asks for what its
    -- configuration says, gives the code to the first handler and, where that agrees, the pieces to
    -- the second like `deliver`; it ends with 0, or ERROR_CANCELLED where a handler did not agree,
    -- or with the handler's exception. More rounds of the loop than there are pieces are enough.
    pub do_http_request_ctx_delivers :
        (fuel : ℕ) (pieces : List Text) (history : WinHistory) (context : C) (target : HostData)
        (code : ℕ)
        → extract_data_from_host config.host config.scheme ≡ ok target
        → win.status (asked_history win config with_certificate target history) ≡ some code
        → Sends win (status_asked ∷ asked_history win config with_certificate target history) pieces
        → length pieces < fuel
        → seen_end (do_http_request_ctx win handlers fuel config with_certificate history context)
          ≡ shown (
              delivered handlers.content_receiver
                (deliver handlers.content_receiver pieces)
                (handlers.ret_code_handler code context))
    unfolding do_http_request_ctx request_body exchange ◌>>=◌ acquire of_result ask_status note
        proceed handle
    do_http_request_ctx_delivers fuel pieces history context target code e st sends h =
        finish-seen
          (request_body win handlers fuel config with_certificate (started history context))
        ∙ rw (call_lem open_session) (
            rw e (
              rw (call_lem (connect_to _ _)) (
                rw (call_lem (open_request _ _ _)) (
                  rw (call_when target.is_https) (
                    rw (call_unless config.verify) (
                      rw (call_lem (send_request _ _)) (
                        rw (call_lem receive_response) (
                          rw st (
                            received fuel pieces (handlers.ret_code_handler code context) _ sends
                              h)))))))))
