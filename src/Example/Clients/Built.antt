-- ===== src/Example/Clients/Built.antt =====
-- The client of standalone_client, and the client that the handler of up2date_client restores.
use mathlib.Core.Path.{subst}
use up2date_cpp.Base.{
  ℕ, zero, suc, ◌+◌, ◌<◌, ◌≡◌, ◌≢◌, refl, sym, ◌∙◌, ap, false, none, some, [], ◌∷◌, ◌++◌, arith,
}
use up2date_cpp.Base.Int.{pos}
use up2date_cpp.Text.{Text, codes, Every, is_empty}
use up2date_cpp.Outcome.{Result, ok, ◌>>=◌}
use up2date_cpp.Uri.{Uri, from_string}
use up2date_cpp.Uri.Match.{is_path_char}
use up2date_cpp.Dps.{ProvisioningData}
use up2date_cpp.Ddi.Endpoint.{
  hawkbit_endpoint_from, controller_path, from_string-hawkbit_endpoint_from,
}
use up2date_cpp.Ddi.State.{
  Client, no_keypair, format_auth_header, set_tls, set_endpoint, set_gateway_token,
}
use up2date_cpp.Ddi.Builder.{builder_endpoint, builder_gateway_token, configured}
use up2date_cpp.Multimap.{insert}
use up2date_cpp.Example.Provision.{System, value}
use up2date_cpp.Example.Provision.Retries.{Fails}
use up2date_cpp.Example.Clients.{standalone_client, reload}

-- The address that `hawkbitEndpointFrom` builds.
abbrev address : Uri → Text → Text
address u controller =
    u.scheme ++ (codes "://" ++ (u.authority ++ controller_path controller (codes "default")))

address_read :
    (endpoint controller : Text) (u : Uri)
    → from_string endpoint ≡ ok u
    → hawkbit_endpoint_from endpoint controller (codes "default") ≡ ok (address u controller)
unfolding hawkbit_endpoint_from
address_read endpoint controller u h = rw h refl

address_not_empty :
    (u : Uri) (controller : Text) → u.scheme ≢ [] → is_empty (address u controller) ≡ false
address_not_empty u controller h = go u.scheme refl
  where
    go :
        (t : Text)
        → u.scheme ≡ t
        → is_empty (
            u.scheme
            ++ (codes "://" ++ (u.authority ++ controller_path controller (codes "default"))))
          ≡ false
    go [] e = absurd (h e)
    go (c ∷ t) e = rw e refl

address_parsed :
    (endpoint controller : Text) (u : Uri)
    → from_string endpoint ≡ ok u
    → u.scheme ≢ []
    → Every is_path_char controller
    → from_string (address u controller)
      ≡ ok (record u {
        path = controller_path controller (codes "default");
        query = [];
        fragment = [];
      })
address_parsed endpoint controller u h s k =
    ap (λ r. r >>= from_string) (sym (address_read endpoint controller u h))
    ∙ from_string-hawkbit_endpoint_from endpoint controller (codes "default") u h s k (ground arith)

restored_at_once :
    (attempt : ℕ → Result ProvisioningData) (i fuel : ℕ) (c : Client) (payload : ProvisioningData)
    (u : Uri)
    → attempt i ≡ ok payload
    → from_string payload.up2date_endpoint ≡ ok u
    → reload attempt (suc fuel) i c
      ≡ some
          (ok tt, record (set_tls payload.key_pair.crt payload.key_pair.key c) { hawkbit_uri = u })
unfolding reload
restored_at_once attempt i fuel c payload u h e = rw h (rw e refl)

once_more :
    (attempt : ℕ → Result ProvisioningData) (i fuel : ℕ) (c : Client)
    → Fails (attempt i)
    → reload attempt (suc fuel) i c ≡ reload attempt fuel (suc i) c
unfolding reload
once_more attempt i fuel c (e, h) = rw h refl

-- If the three variables are set, the endpoint is a URI with a scheme, and the controller's name
-- has neither `?` nor `#`, the client that standalone_client runs polls the controller's path on
-- that server, sends the gateway token as its only header, polls every 30 seconds by default, and
-- does not verify the server's certificate.
pub standalone_client_lem :
    (system : System) (handler : ℕ) (token endpoint controller : Text) (u : Uri)
    → system.getenv (codes "GATEWAY_TOKEN") ≡ some token
    → system.getenv (codes "HAWKBIT_ENDPOINT") ≡ some endpoint
    → system.getenv (codes "CONTROLLER_ID") ≡ some controller
    → from_string endpoint ≡ ok u
    → u.scheme ≢ []
    → Every is_path_char controller
    → standalone_client system handler
      ≡ value (record {
        hawkbit_uri = record {
          scheme = u.scheme;
          authority = u.authority;
          path = controller_path controller (codes "default");
          query = [];
          fragment = [];
        };
        default_headers = (codes "Authorization", codes "GatewayToken " ++ token) ∷ [];
        handler = some handler;
        auth_error_handler = none;
        default_sleep_time = pos 30000;
        current_sleep_time = pos 30000;
        ignore_sleep = false;
        is_running = false;
        poll_requested = false;
        server_certificate_verify = false;
        tls = no_keypair;
      })
unfolding standalone_client builder_endpoint builder_gateway_token configured set_gateway_token
    set_endpoint format_auth_header insert
standalone_client_lem system handler token endpoint controller u e₁ e₂ e₃ h s k = rw e₁ (
    rw e₂ (
      rw e₃ (
        rw (address_read endpoint controller u h) (
          rw (address_not_empty u controller s)
            (rw (address_parsed endpoint controller u h s k) refl)))))

-- Where the first `k` attempts of `DPSInfoReloadHandler` end with an exception, and the next one
-- gives a payload whose endpoint is a URI, the handler returns, and leaves the client with that key
-- pair and that endpoint and without an Authorization header, as if it had made that attempt alone.
pub reload_restores :
    (attempt : ℕ → Result ProvisioningData) (k i fuel : ℕ) (c : Client) (payload : ProvisioningData)
    (u : Uri)
    → ((j : ℕ) → j < k → Fails (attempt (i + j)))
    → attempt (i + k) ≡ ok payload
    → from_string payload.up2date_endpoint ≡ ok u
    → k < fuel
    → reload attempt fuel i c
      ≡ some
          (ok tt, record (set_tls payload.key_pair.crt payload.key_pair.key c) { hawkbit_uri = u })
reload_restores attempt k i zero c payload u fails h e bound = absurd (omega (arith, bound))
reload_restores attempt zero i (suc fuel) c payload u fails h e bound =
    restored_at_once attempt i fuel c payload u
      (subst (λ n. attempt n ≡ ok payload) (omega arith) h) e
reload_restores attempt (suc k) i (suc fuel) c payload u fails h e bound =
    once_more attempt i fuel c
      (subst (λ n. Fails (attempt n)) (omega arith) (fails 0 (omega arith)))
    ∙ reload_restores attempt k (suc i) fuel c payload u
        (λ j b. subst (λ n. Fails (attempt n)) (omega arith) (fails (suc j) (omega (arith, b))))
        (subst (λ n. attempt n ≡ ok payload) (omega arith) h) e (omega (arith, bound))
