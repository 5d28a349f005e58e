-- ===== src/Win/Client/Gets.antt =====
-- What the methods of the client return where the calls of WinHTTP succeed.
use up2date_cpp.Base.{
  ℕ, ◌<◌, ◌≡◌, refl, sym, ◌∙◌, ap, Bool, true, false, none, some, List, [], ◌∷◌, ◌++◌, append_assoc,
  append-nil, length,
}
use up2date_cpp.Text.{Text, codes}
use up2date_cpp.Outcome.{HttpError, Result, ok, throw, fault, ◌>>=◌}
use up2date_cpp.Multimap.{Multimap}
use up2date_cpp.Ddi.Session.Monad.{Reply}
use up2date_cpp.Win.Api.{WinHttp, WinHistory, status_asked}
use up2date_cpp.Win.Host.{HostData, extract_data_from_host}
use up2date_cpp.Win.Request.{RequestConfig, Handlers}
use up2date_cpp.Win.Request.Delivers.{Sends, deliver, delivered, shown}
use up2date_cpp.Win.Request.Succeeds.{
  Succeeds, asked_history, seen_end, do_http_request_ctx_delivers,
}
use up2date_cpp.Win.Keys.{WinCrypt}
use up2date_cpp.Http.{UserHandlers}
use up2date_cpp.Win.Client.{
  WinClient, Received, nothing_received, string_data_reader, simple_status_code_reader, CodeHandler,
  with_code, cb_data_reader, cb_status_code_reader, result_with, result_of, reply_of,
  plain_handlers, user_handlers, request_config, do_http_win_request, win_get, win_get_with,
}

-- All pieces of a content.
abbrev joined : List Text → Text
joined [] = []
joined (piece ∷ pieces) = piece ++ joined pieces

-- The system answers a request: its host is known, there is a status code, and then the pieces of
-- the content.
pub record Answers (win : WinHttp) (config : RequestConfig) (history : WinHistory) (code : ℕ)
    (pieces : List Text) : Type 0 where
  pub target : HostData
  pub host_known : extract_data_from_host config.host config.scheme ≡ ok target
  pub status_known : win.status (asked_history win config false target history) ≡ some code
  pub sends : Sends win (status_asked ∷ asked_history win config false target history) pieces

deliver-string_data_reader :
    (pieces : List Text) (s : Received)
    → deliver string_data_reader pieces s ≡ (ok 0, record s { resp = s.resp ++ joined pieces })
unfolding string_data_reader
deliver-string_data_reader [] s = ap (λ t. (ok 0, record s { resp = t })) (sym (append-nil s.resp))
deliver-string_data_reader (piece ∷ pieces) s =
    deliver-string_data_reader pieces (record s { resp = s.resp ++ piece })
    ∙ ap (λ t. (ok 0, record s { resp = t })) (append_assoc s.resp piece (joined pieces))

module _ {U : Type 0} (handlers : UserHandlers U) where
  abbrev in_handler : ℕ → Result ℕ × U → Result ℕ × CodeHandler U
  in_handler code (r, u) = (r, record { code = code; user = u })

  delivered-with_code :
      (code : ℕ) (pieces : List Text) (r : Result Bool × U)
      → ((u : U)
          → deliver (cb_data_reader handlers) pieces (record { code = code; user = u })
            ≡ in_handler code (deliver handlers.content_receiver pieces u))
      → delivered
          (cb_data_reader handlers)
          (deliver (cb_data_reader handlers) pieces)
          (with_code code r)
        ≡ in_handler code
            (delivered handlers.content_receiver (deliver handlers.content_receiver pieces) r)
  delivered-with_code code pieces (ok true, u) later = later u
  delivered-with_code code pieces (ok false, u) later = refl
  delivered-with_code code pieces (throw e, u) later = refl
  delivered-with_code code pieces (fault x, u) later = refl

  deliver-cb_data_reader :
      (code : ℕ) (pieces : List Text) (u : U)
      → deliver (cb_data_reader handlers) pieces (record { code = code; user = u })
        ≡ in_handler code (deliver handlers.content_receiver pieces u)
  unfolding cb_data_reader
  deliver-cb_data_reader code [] u = refl
  deliver-cb_data_reader code (piece ∷ pieces) u =
      delivered-with_code code pieces (handlers.content_receiver piece u)
        (deliver-cb_data_reader code pieces)

module _ (win : WinHttp) (works : Succeeds win) (crypt : WinCrypt) (store_fuel fuel : ℕ)
    (client : WinClient) (no_keys : client.kp ≡ none) where
  do_http_win_request_lem :
      {C : Type 0} (handlers : Handlers C) (method path : Text) (headers : Multimap) (body : Text)
      (history : WinHistory) (context : C) (code : ℕ) (pieces : List Text)
      → Answers win (request_config client method path headers body) history code pieces
      → length pieces < fuel
      → seen_end (
          do_http_win_request win crypt store_fuel fuel client handlers method path headers body
            history context)
        ≡ shown (
            delivered handlers.content_receiver
              (deliver handlers.content_receiver pieces)
              (handlers.ret_code_handler code context))
  unfolding do_http_win_request
  do_http_win_request_lem handlers method path headers body history context code pieces a h =
      rw no_keys (
        do_http_request_ctx_delivers win works handlers
          (request_config client method path headers body) false fuel pieces history context
          a.target code a.host_known a.status_known a.sends h)

  -- Where WinHTTP works and answers with a status code and the pieces of a content, `Get` of a
  -- client without a key pair returns the code and the joined pieces, and no error.
  win_get_lem :
      (path : Text) (headers : Multimap) (history : WinHistory) (code : ℕ) (pieces : List Text)
      → Answers win (request_config client (codes "GET") path headers []) history code pieces
      → length pieces < fuel
      → (win_get win crypt store_fuel fuel client path headers history).result
        ≡ some (
            ok (record {
              response = some (record { status = code; body = joined pieces });
              error = HttpError.success;
            }))
  unfolding win_get simple_status_code_reader
  win_get_lem path headers history code pieces a h =
      ap (λ x. result_of (reply_of x.1) x.0)
        (do_http_win_request_lem plain_handlers (codes "GET") path headers [] history
            nothing_received code pieces a h
          ∙ ap shown (deliver-string_data_reader pieces (record { status_code = code; resp = [] })))

  -- `Get` with handlers, of a client without a key pair, does what handing the code to the response
  -- handler and then the pieces to the content receiver does, up to the first that refuses: the
  -- user's state is the one that they leave, an exception of theirs is passed on, and the result
  -- has the code, no content, and the error Unknown if one of them refused.
  pub win_get_with_lem :
      {U : Type 0} (handlers : UserHandlers U) (path : Text) (headers : Multimap)
      (history : WinHistory) (user : U) (code : ℕ) (pieces : List Text)
      → Answers win (request_config client (codes "GET") path headers []) history code pieces
      → length pieces < fuel
      → let response : Reply = record { status = code; body = [] } in
        let run =
          delivered handlers.content_receiver
            (deliver handlers.content_receiver pieces)
            (handlers.response_handler response user) in
        let end =
          win_get_with win crypt store_fuel fuel client handlers path headers history user in
        (end.result ≡ some (run.0 >>= λ error. ok (result_with response error)))
        × (end.context.user ≡ run.1)
  unfolding win_get_with cb_status_code_reader
  win_get_with_lem handlers path headers history user code pieces a h =
      let response : Reply = record { status = code; body = [] } in
      let e =
        do_http_win_request_lem (user_handlers handlers) (codes "GET") path headers [] history
          (record { code = 0; user = user }) code pieces a h
        ∙ ap shown (
            delivered-with_code handlers code pieces (handlers.response_handler response user)
              (deliver-cb_data_reader handlers code pieces)) in
      (ap (λ x. result_of (record { status = x.1.code; body = [] }) x.0) e, ap (λ x. x.1.user) e)
