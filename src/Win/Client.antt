-- ===== src/Win/Client.antt =====
-- modules/src/win/httpclient_impl.cpp: the client that is built on `do_http_request_mtls`.
pub mod Headers
pub mod Gets
use up2date_cpp.Base.{ℕ, Bool, true, false, Option, none, some, [], ◌∷◌, ◌++◌, ◌==◌, if◌then◌else◌}
use up2date_cpp.Text.{Text, codes, c_str}
use up2date_cpp.Outcome.{HttpError, Result, ok, throw, fault, ◌>>=◌}
use up2date_cpp.Http.{UserHandlers}
use up2date_cpp.Multimap.{Multimap, insert}
use up2date_cpp.Uri.{Uri, from_string}
use up2date_cpp.Ddi.Session.Monad.{Reply, HttpResult}
use up2date_cpp.Win.Api.{WinHttp, WinHistory}
use up2date_cpp.Win.Request.{RequestConfig, Handlers, RequestEnd}
use up2date_cpp.Win.Keys.{KeyPair, WinCrypt, do_http_request_mtls}

-- `WINHttpLibClientImpl`
pub record WinClient : Type 0 where
  pub base_address : Uri
  pub kp : Option KeyPair
  pub server_verify : Bool

-- The constructors of `Client` and of `WINHttpLibClientImpl`.
unfoldable new_win_client : Text → Option KeyPair → Result WinClient
new_win_client endpoint kp = do
  address ← from_string endpoint
  ok (record { base_address = address; kp = kp; server_verify = true })

-- `enable_server_certificate_verification`
unfoldable enable_server_certificate_verification : Bool → WinClient → WinClient
enable_server_certificate_verification b c = record c { server_verify = b }

-- `formatHeaders`
unfoldable pub format_headers : Multimap → Text
format_headers [] = codes "\r\n"
format_headers ((name, value) ∷ headers) =
    name ++ (codes ": " ++ (value ++ (codes "\r\n" ++ format_headers headers)))

-- The variables `statusCode` and `resp` of a request without handlers.
pub record Received : Type 0 where
  pub status_code : ℕ
  pub resp : Text

abbrev pub nothing_received : Received
nothing_received = record { status_code = 0; resp = [] }

-- `stringDataReader` and `simpleStatusCodeReader`
unfoldable pub string_data_reader : Text → Received → Result Bool × Received
string_data_reader piece s = (ok true, record s { resp = s.resp ++ piece })

unfoldable pub simple_status_code_reader : ℕ → Received → Result Bool × Received
simple_status_code_reader code s = (ok true, record s { status_code = code })

-- `codeHandler` with the user's state.
pub record CodeHandler (U : Type 0) : Type 0 where
  pub code : ℕ
  pub user : U

module _ {U : Type 0} where
  abbrev pub with_code : ℕ → Result Bool × U → Result Bool × CodeHandler U
  with_code code (answer, u) = (answer, record { code = code; user = u })

  -- `cbDataReader` and `cbStatusCodeReader`
  unfoldable pub cb_data_reader :
      UserHandlers U → Text → CodeHandler U → Result Bool × CodeHandler U
  cb_data_reader handlers piece s = with_code s.code (handlers.content_receiver piece s.user)

  unfoldable pub cb_status_code_reader :
      UserHandlers U → ℕ → CodeHandler U → Result Bool × CodeHandler U
  cb_status_code_reader handlers code s =
      with_code code (handlers.response_handler (record { status = code; body = [] }) s.user)

-- What a request leaves: its result, or none where a bound was too small, and the state.
pub record ClientEnd (C : Type 0) : Type 0 where
  pub result : Option (Result HttpResult)
  pub history : WinHistory
  pub context : C

-- `std::make_unique<Response>(…)` with the error that the code stands for.
abbrev pub result_with : Reply → ℕ → HttpResult
result_with response code = record {
  response = some response;
  error = if code == 0 then HttpError.success else HttpError.unknown;
}

abbrev pub result_of : Reply → Option (Result ℕ) → Option (Result HttpResult)
result_of response none = none
result_of response (some r) = some (r >>= λ code. ok (result_with response code))

abbrev pub reply_of : Received → Reply
reply_of r = record { status = r.status_code; body = r.resp }

abbrev plain_end : RequestEnd Received → ClientEnd Received
plain_end e = record {
  result = result_of (reply_of e.context) e.outcome;
  history = e.history;
  context = e.context;
}

abbrev pub plain_handlers : Handlers Received
plain_handlers = record {
  ret_code_handler = simple_status_code_reader;
  content_receiver = string_data_reader;
}

abbrev pub user_handlers : {U : Type 0} → UserHandlers U → Handlers (CodeHandler U)
user_handlers handlers = record {
  ret_code_handler = cb_status_code_reader handlers;
  content_receiver = cb_data_reader handlers;
}

-- The `request_config` of `doHttpWinRequest`; the method and the path come as C strings.
unfoldable pub request_config : WinClient → Text → Text → Multimap → Text → RequestConfig
unfolding format_headers
request_config client method path headers body = record {
  scheme = c_str client.base_address.scheme;
  host = c_str client.base_address.authority;
  path = path;
  method = method;
  headers = c_str (format_headers headers);
  body = body;
  verify = client.server_verify;
}

module _ (win : WinHttp) (crypt : WinCrypt) (store_fuel fuel : ℕ) (client : WinClient) where
  -- `doHttpWinRequest`
  unfoldable pub do_http_win_request :
      {C : Type 0} → Handlers C → Text → Text → Multimap → Text → WinHistory → C → RequestEnd C
  unfolding request_config do_http_request_mtls
  do_http_win_request handlers method path headers body history context =
      do_http_request_mtls win crypt handlers store_fuel fuel
        (request_config client method path headers body) client.kp history context

  -- `Get`
  unfoldable pub win_get : Text → Multimap → WinHistory → ClientEnd Received
  unfolding do_http_win_request
  win_get path headers history =
      plain_end
        (do_http_win_request plain_handlers (codes "GET") path headers [] history nothing_received)

  -- `Get` with handlers
  unfoldable pub win_get_with :
      {U : Type 0} → UserHandlers U → Text → Multimap → WinHistory → U → ClientEnd (CodeHandler U)
  unfolding do_http_win_request
  win_get_with handlers path headers history user =
      let e =
        do_http_win_request (user_handlers handlers) (codes "GET") path headers [] history
          (record { code = 0; user = user }) in
      record {
        result = result_of (record { status = e.context.code; body = [] }) e.outcome;
        history = e.history;
        context = e.context;
      }

  -- `Post` and `Put`
  unfoldable win_post : Text → Multimap → Text → Text → WinHistory → ClientEnd Received
  unfolding do_http_win_request insert
  win_post path headers body content_type history = plain_end (
      do_http_win_request plain_handlers (codes "POST") path
        (insert (codes "Content-Type") content_type headers) body history nothing_received)

  unfoldable win_put : Text → Multimap → Text → Text → WinHistory → ClientEnd Received
  unfolding do_http_win_request insert
  win_put path headers body content_type history = plain_end (
      do_http_win_request plain_handlers (codes "PUT") path
        (insert (codes "Content-Type") content_type headers) body history nothing_received)
