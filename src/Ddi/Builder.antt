-- ===== src/Ddi/Builder.antt =====
-- ddi/src/ddi_client_builder.cpp: `DefaultClientBuilderImpl`.
pub mod Build
use up2date_cpp.Base.{ℕ, Bool, true, false, Option, none, [], if◌then◌else◌}
use up2date_cpp.Base.Int.{ℤ, pos}
use up2date_cpp.Text.{Text, codes, is_empty}
use up2date_cpp.Outcome.{Result, ok, throw, runtime_error, ◌>>=◌}
use up2date_cpp.Multimap.{Multimap, insert}
use up2date_cpp.Uri.{no_uri}
use up2date_cpp.Ddi.Endpoint.{hawkbit_endpoint_from}
use up2date_cpp.Ddi.State.{
  Client, no_keypair, set_tls, set_device_token, set_gateway_token, set_endpoint,
}

-- `enum AuthorizeVariants`
pub data AuthVariant : Type 0 where
  not_set gateway_token device_token m_tls_keypair : AuthVariant

pub record Builder : Type 0 where
  pub hawkbit_uri : Text
  pub polling_timeout : ℤ
  pub default_headers : Multimap
  pub auth_error_handler : Option ℕ
  pub handler : Option ℕ
  pub token : Text
  pub crt : Text
  pub key : Text
  pub verify_server_certificate : Bool
  pub auth_variant : AuthVariant

-- `DDIClientBuilder::newInstance`
unfoldable pub new_builder : Builder
new_builder = record {
  hawkbit_uri = [];
  polling_timeout = pos 30000;
  default_headers = [];
  auth_error_handler = none;
  handler = none;
  token = [];
  crt = [];
  key = [];
  verify_server_certificate = true;
  auth_variant = not_set;
}

unfoldable pub builder_event_handler : Option ℕ → Builder → Builder
builder_event_handler handler b = record b { handler = handler }

unfoldable pub builder_endpoint : Text → Builder → Builder
builder_endpoint endpoint b = record b { hawkbit_uri = endpoint }

unfoldable pub builder_controller_endpoint : Text → Text → Text → Builder → Result Builder
builder_controller_endpoint endpoint controller tenant b = do
  full ← hawkbit_endpoint_from endpoint controller tenant
  ok (builder_endpoint full b)

unfoldable pub builder_polling_timeout : ℤ → Builder → Builder
builder_polling_timeout timeout b = record b { polling_timeout = timeout }

unfoldable pub builder_header : Text → Text → Builder → Builder
builder_header k v b = record b { default_headers = insert k v b.default_headers }

abbrev pub is_not_set : AuthVariant → Bool
is_not_set not_set = true
is_not_set _ = false

abbrev another_authority : Result Builder
another_authority = throw (runtime_error (codes "Another authority type is already set"))

unfoldable pub builder_gateway_token : Text → Builder → Result Builder
builder_gateway_token token b =
    if is_not_set b.auth_variant
    then ok (record b { token = token; auth_variant = gateway_token })
    else another_authority

unfoldable pub builder_device_token : Text → Builder → Result Builder
builder_device_token token b =
    if is_not_set b.auth_variant
    then ok (record b { token = token; auth_variant = device_token })
    else another_authority

unfoldable pub builder_tls : Text → Text → Builder → Result Builder
builder_tls crt key b =
    if is_not_set b.auth_variant
    then ok (record b { crt = crt; key = key; auth_variant = m_tls_keypair })
    else another_authority

unfoldable pub builder_not_verify : Builder → Builder
builder_not_verify b = record b { verify_server_certificate = false }

unfoldable pub builder_auth_error_handler : Option ℕ → Builder → Builder
builder_auth_error_handler e b = record b { auth_error_handler = e }

-- `new HawkbitCommunicationClient()`, which is value-initialised.
abbrev blank_client : Client
blank_client = record {
  hawkbit_uri = no_uri;
  default_headers = [];
  handler = none;
  auth_error_handler = none;
  default_sleep_time = pos 0;
  current_sleep_time = pos 0;
  ignore_sleep = false;
  is_running = false;
  poll_requested = false;
  server_certificate_verify = true;
  tls = no_keypair;
}

-- The assignments of `build`.
unfoldable pub configured : Builder → Client → Client
configured b c = record c {
  default_sleep_time = b.polling_timeout;
  current_sleep_time = b.polling_timeout;
  handler = b.handler;
  default_headers = b.default_headers;
  server_certificate_verify = b.verify_server_certificate;
  auth_error_handler = b.auth_error_handler;
  is_running = false;
}

unfoldable pub authorized : AuthVariant → Builder → Client → Client
authorized m_tls_keypair b c = set_tls b.crt b.key c
authorized gateway_token b c = set_gateway_token b.token c
authorized device_token b c = set_device_token b.token c
authorized not_set b c = c

-- `build`
unfoldable pub build : Builder → Result Client
unfolding configured authorized
build b = do
  c ← if is_empty b.hawkbit_uri then ok blank_client else set_endpoint b.hawkbit_uri blank_client
  ok (authorized b.auth_variant b (configured b c))
