-- ===== src/Ddi/State.antt =====
-- The fields of `HawkbitCommunicationClient` (ddi/src/ddi_client_impl.hpp) and the methods by
-- which they change: the interface `AuthRestoreHandler`, `stop` and `requestToPoll`.
pub mod Credentials
use up2date_cpp.Base.{ℕ, Bool, true, false, Option, none, some, [], ◌∷◌, ◌++◌}
use up2date_cpp.Base.Int.{ℤ}
use up2date_cpp.Text.{Text, codes}
use up2date_cpp.Outcome.{Result, ok, ◌>>=◌}
use up2date_cpp.Multimap.{Multimap, insert, erase}
use up2date_cpp.Uri.{Uri, from_string}
use up2date_cpp.Ddi.Endpoint.{hawkbit_endpoint_from}

pub record TlsKeypair : Type 0 where
  pub crt : Text
  pub key : Text
  pub is_set : Bool

-- `handler` and `auth_error_handler` are shared pointers to a user's objects, known by numbers.
pub record Client : Type 0 where
  pub hawkbit_uri : Uri
  pub default_headers : Multimap
  pub handler : Option ℕ
  pub auth_error_handler : Option ℕ
  pub default_sleep_time : ℤ
  pub current_sleep_time : ℤ
  pub ignore_sleep : Bool
  pub is_running : Bool
  pub poll_requested : Bool
  pub server_certificate_verify : Bool
  pub tls : TlsKeypair

abbrev pub authorization_header : Text
authorization_header = codes "Authorization"

abbrev pub gateway_token_header : Text
gateway_token_header = codes "GatewayToken"

abbrev pub target_token_header : Text
target_token_header = codes "TargetToken"

unfoldable pub format_auth_header : Text → Text → Text
format_auth_header auth_type val = auth_type ++ (codes " " ++ val)

abbrev pub no_keypair : TlsKeypair
no_keypair = record { crt = []; key = []; is_set = false }

unfoldable pub set_tls : Text → Text → Client → Client
set_tls crt key c = record c {
  tls = record { crt = crt; key = key; is_set = true };
  default_headers = erase authorization_header c.default_headers;
}

unfoldable pub set_device_token : Text → Client → Client
set_device_token token c = record c {
  default_headers =
      insert authorization_header (format_auth_header target_token_header token) c.default_headers;
  tls = no_keypair;
}

unfoldable pub set_gateway_token : Text → Client → Client
set_gateway_token token c = record c {
  default_headers =
      insert authorization_header (format_auth_header gateway_token_header token) c.default_headers;
  tls = no_keypair;
}

unfoldable pub set_endpoint : Text → Client → Result Client
set_endpoint endpoint c = do u ← from_string endpoint; ok (record c { hawkbit_uri = u })

unfoldable pub set_controller_endpoint : Text → Text → Text → Client → Result Client
set_controller_endpoint endpoint controller tenant c = do
  full ← hawkbit_endpoint_from endpoint controller tenant
  set_endpoint full c

-- The methods of `AuthRestoreHandler`, as calls.
pub data RestoreCall : Type 0 where
  tls_call : Text → Text → RestoreCall
  endpoint_call : Text → RestoreCall
  controller_endpoint_call : Text → Text → Text → RestoreCall
  device_token_call gateway_token_call : Text → RestoreCall

-- `AuthRestoreHandler_` passes each call on to the client.
unfoldable pub apply_restore : RestoreCall → Client → Result Client
apply_restore (RestoreCall.tls_call crt key) c = ok (set_tls crt key c)
apply_restore (RestoreCall.endpoint_call endpoint) c = set_endpoint endpoint c
apply_restore (RestoreCall.controller_endpoint_call endpoint controller tenant) c =
    set_controller_endpoint endpoint controller tenant c
apply_restore (RestoreCall.device_token_call token) c = ok (set_device_token token c)
apply_restore (RestoreCall.gateway_token_call token) c = ok (set_gateway_token token c)

-- `stop` and `requestToPoll`
pub data Signal : Type 0 where
  stop_signal poll_signal : Signal

unfoldable pub stop : Client → Client
stop c = record c { is_running = false }

unfoldable pub request_to_poll : Client → Client
request_to_poll c = record c { poll_requested = true }

unfoldable pub apply_signal : Signal → Client → Client
unfolding stop request_to_poll
apply_signal Signal.stop_signal c = stop c
apply_signal Signal.poll_signal c = request_to_poll c
