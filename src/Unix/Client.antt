-- ===== src/Unix/Client.antt =====
-- The methods of `HttpLibClientImpl`, over cpp-httplib as a parameter.
use up2date_cpp.Base.{ℕ, ◌≡◌, Bool, Option, none, some, List, [], ◌==◌, if◌then◌else◌}
use up2date_cpp.Text.{Text}
use up2date_cpp.Outcome.{HttpError, Result, ok, throw, fault, ◌>>=◌}
use up2date_cpp.Multimap.{Multimap}
use up2date_cpp.Ddi.Session.Monad.{HttpResult}
use up2date_cpp.Ddi.Session.Requests.{reply, no_reply}
use up2date_cpp.Http.{UserHandlers}
use up2date_cpp.Unix.{OpenSsl, Loaded, load_key_pair, to_http_lib_result}
use up2date_cpp.Win.Request.Delivers.{deliver, delivered}

-- What the client uses of `httplib::Client`; its constructors throw for a scheme that they do
-- not support.
pub record HttpLib (ssl : OpenSsl) : Type 1 where
  pub Cli : Type 0
  pub Headers : Type 0
  pub plain_cli : Text → Result Cli
  pub keyed_cli : Text → Loaded ssl → Result Cli
  pub verify : Bool → Cli → Cli
  pub headers_of : Multimap → Headers
  pub get : Cli → Text → Headers → HttpResult
  pub get_with :
      {U : Type 0}
      → Cli
      → Text
      → Headers
      → (ℕ → U → Result Bool × U)
      → (Text → U → Result Bool × U)
      → U
      → Result HttpResult × U
  pub post : Cli → Text → Headers → Text → Text → HttpResult
  pub put : Cli → Text → Headers → Text → Text → HttpResult

-- What the library makes of the code of a run over the pieces.
abbrev pub ended_as : ℕ → Result ℕ → Result HttpResult
ended_as status (ok error) =
    ok (if error == 0 then reply status [] else no_reply HttpError.canceled)
ended_as status (throw e) = throw e
ended_as status (fault x) = fault x

module _ {ssl : OpenSsl} (lib : HttpLib ssl) where
  -- `toHttpLibHeaders`
  unfoldable to_http_lib_headers : Multimap → lib.Headers
  to_http_lib_headers headers = lib.headers_of headers

  -- `Client::Client(endpoint)`
  unfoldable new_client : Text → Result lib.Cli
  new_client endpoint = lib.plain_cli endpoint

  abbrev pub keyed : Text → Option (Loaded ssl) → Option (Result lib.Cli)
  keyed endpoint none = none
  keyed endpoint (some loaded) = some (lib.keyed_cli endpoint loaded)

  -- `Client::Client(endpoint, kp)`
  unfoldable new_keyed_client : Text → Text → Text → Option (Result lib.Cli)
  unfolding load_key_pair
  new_keyed_client endpoint crt key = keyed endpoint (load_key_pair ssl crt key)

  unfoldable unix_verify : Bool → lib.Cli → lib.Cli
  unix_verify b cli = lib.verify b cli

  -- `Get`, `Post` and `Put`
  unfoldable unix_get : lib.Cli → Text → Multimap → Result HttpResult
  unfolding to_http_lib_result to_http_lib_headers
  unix_get cli path headers = to_http_lib_result (lib.get cli path (to_http_lib_headers headers))

  unfoldable unix_post : lib.Cli → Text → Multimap → Text → Text → Result HttpResult
  unfolding to_http_lib_result to_http_lib_headers
  unix_post cli path headers body content_type =
      to_http_lib_result (lib.post cli path (to_http_lib_headers headers) body content_type)

  unfoldable unix_put : lib.Cli → Text → Multimap → Text → Text → Result HttpResult
  unfolding to_http_lib_result to_http_lib_headers
  unix_put cli path headers body content_type =
      to_http_lib_result (lib.put cli path (to_http_lib_headers headers) body content_type)

  abbrev pub converted : {U : Type 0} → Result HttpResult × U → Result HttpResult × U
  converted (r, u) = (r >>= to_http_lib_result, u)

  -- `Get` with handlers; the response handler gets the status alone.
  unfoldable pub unix_get_with :
      {U : Type 0} → UserHandlers U → lib.Cli → Text → Multimap → U → Result HttpResult × U
  unfolding to_http_lib_result to_http_lib_headers
  unix_get_with handlers cli path headers user = converted (
      lib.get_with cli path (to_http_lib_headers headers)
        (λ status. handlers.response_handler (record { status = status; body = [] }))
        handlers.content_receiver user)

  -- The documented behaviour of a `Get` with handlers for a response with a status and pieces.
  pub record Streams (cli : lib.Cli) (path : Text) (headers : Multimap) (status : ℕ)
      (pieces : List Text) : Type 1 where
    pub streams :
        {U : Type 0} (on_status : ℕ → U → Result Bool × U) (receiver : Text → U → Result Bool × U)
        (user : U)
        → let run = delivered receiver (deliver receiver pieces) (on_status status user) in
          lib.get_with cli path (lib.headers_of headers) on_status receiver user
          ≡ (ended_as status run.0, run.1)
