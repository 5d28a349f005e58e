-- ===== src/Example/Clients.antt =====
-- example/standalone_client/main.cpp and example/up2date_client/main.cpp: the clients that these
-- programs build and run, and the handler of authorization errors of the second one.
pub mod Built
use up2date_cpp.Base.{
  ℕ, zero, suc, ◌≡◌, ◌≢◌, refl, ◌∙◌, ap, true, false, Option, none, some, [], ◌∷◌, ◌++◌, arith,
  if◌then◌else◌,
}
use up2date_cpp.Base.Int.{pos}
use up2date_cpp.Text.{Text, codes, Every}
use up2date_cpp.Outcome.{Result, ok, throw, fault}
use up2date_cpp.Multimap.{insert}
use up2date_cpp.Uri.{Uri, from_string}
use up2date_cpp.Uri.Match.{is_path_char}
use up2date_cpp.Dps.{ProvisioningData, ProvisioningClient}
use up2date_cpp.Ddi.Endpoint.{
  hawkbit_endpoint_from, controller_path, from_string-hawkbit_endpoint_from,
}
use up2date_cpp.Ddi.State.{
  Client, no_keypair, authorization_header, gateway_token_header, format_auth_header, RestoreCall,
  tls_call, endpoint_call, apply_restore, set_tls, set_endpoint, set_gateway_token,
}
use up2date_cpp.Ddi.Builder.{
  Builder, new_builder, builder_event_handler, builder_controller_endpoint, builder_gateway_token,
  builder_not_verify, builder_auth_error_handler, build, configured, authorized,
}
use up2date_cpp.Example.Provision.{
  System, Program, value, ended, ◌>>=◌, or_uncaught, get_env_or_exit, provisioning_client,
}

-- `main` of standalone_client, up to `run`; the event handler is known by a number.
unfoldable pub standalone_client : System → ℕ → Program Client
unfolding get_env_or_exit new_builder builder_event_handler builder_controller_endpoint
    builder_gateway_token builder_not_verify build
standalone_client system handler = do
  gateway_token ← get_env_or_exit system (codes "GATEWAY_TOKEN")
  hawkbit_endpoint ← get_env_or_exit system (codes "HAWKBIT_ENDPOINT")
  controller_id ← get_env_or_exit system (codes "CONTROLLER_ID")
  with_endpoint ←
      or_uncaught
        (builder_controller_endpoint hawkbit_endpoint controller_id (codes "default") new_builder)
  with_token ← or_uncaught (builder_gateway_token gateway_token with_endpoint)
  or_uncaught (build (builder_not_verify (builder_event_handler (some handler) with_token)))

-- `main` of up2date_client, up to `run`: the client, and the provisioning client of its
-- `DPSInfoReloadHandler`.
unfoldable pub up2date_client : System → ℕ → ℕ → Program (Client × ProvisioningClient)
unfolding provisioning_client new_builder builder_auth_error_handler builder_event_handler build
up2date_client system auth_error_handler handler = do
  dps_client ← provisioning_client system
  client ← or_uncaught (
      build (
        builder_event_handler (some handler)
          (builder_auth_error_handler (some auth_error_handler) new_builder)))
  value (client, dps_client)

-- `DPSInfoReloadHandler::onAuthError` acts on the client through its `AuthRestoreHandler`.
abbrev endpoint_done : Client → Result Client → Result (Unit {0}) × Client
endpoint_done c (ok d) = (ok tt, d)
endpoint_done c (throw e) = (throw e, c)
endpoint_done c (fault x) = (fault x, c)

-- The body of its `try`: the endpoint may be refused when the key pair is already set.
abbrev try_restore : Result ProvisioningData → Client → Result (Unit {0}) × Client
try_restore (throw e) c = (throw e, c)
try_restore (fault x) c = (fault x, c)
try_restore (ok payload) c =
    let keyed = set_tls payload.key_pair.crt payload.key_pair.key c in
    endpoint_done keyed (set_endpoint payload.up2date_endpoint keyed)

-- `return`, or the `catch` and the next round.
abbrev or_again :
    (Client → Option (Result (Unit {0}) × Client))
    → Result (Unit {0}) × Client
    → Option (Result (Unit {0}) × Client)
or_again next (ok done, c) = some (ok done, c)
or_again next (throw e, c) = next c
or_again next (fault x, c) = some (fault x, c)

-- Its `for (;;)`, from attempt `i` on; `none` where the fuel ran out.
unfoldable pub reload :
    (ℕ → Result ProvisioningData) → ℕ → ℕ → Client → Option (Result (Unit {0}) × Client)
unfolding set_tls set_endpoint
reload attempt zero i c = none
reload attempt (suc fuel) i c = or_again (reload attempt fuel (suc i)) (try_restore (attempt i) c)
