-- ===== src/Tests/Programs.antt =====
-- The example programs, with concrete variables, files and answers.
use up2date_cpp.Base.{ℕ, zero, suc, ◌+◌, ◌<◌, ◌≡◌, refl, true, false, none, some, [], ◌∷◌, arith}
use up2date_cpp.Base.Int.{pos}
use up2date_cpp.Text.{codes}
use up2date_cpp.Outcome.{HttpError, Result, ok, throw, httplib_error, error_num}
use up2date_cpp.Uri.{Uri, from_string}
use up2date_cpp.Tests.Library.{knowing}
use up2date_cpp.Tests.World.{body, world, client, start, old_endpoint}
use up2date_cpp.Tests.Provisioning.{granted}
use up2date_cpp.Dps.{ProvisioningData, ProvisioningClient, do_provisioning}
use up2date_cpp.Ddi.Endpoint.{controller_path}
use up2date_cpp.Ddi.Payload.Deployment.{Artifact, DeploymentBase}
use up2date_cpp.Ddi.Session.Monad.{Request, HttpResult, pure}
use up2date_cpp.Ddi.Session.Monad
use up2date_cpp.Ddi.Session.Requests.{reply, no_reply, run_callback}
use up2date_cpp.Ddi.State.{RestoreCall, no_keypair, set_tls}
use up2date_cpp.Example.Handler.{on_deployment_action}
use up2date_cpp.Example.Handler.Downloads.{full_response, download_all, on_deployment_action_lem}
use up2date_cpp.Example.Provision.{System, value}
use up2date_cpp.Example.Provision.Retries.{Fails}
use up2date_cpp.Example.Clients.{standalone_client, reload}
use up2date_cpp.Example.Clients.Built.{standalone_client_lem, reload_restores}

abbrev artifact : Artifact
artifact = record {
  filename = codes "f";
  file_hash = record { sha1 = []; md5 = []; sha256 = [] };
  file_size = pos 3;
  download_uri = old_endpoint;
}

abbrev deployment : DeploymentBase
deployment = record {
  id = pos 5;
  download_type = codes "forced";
  update_type = codes "forced";
  in_maintenance_window = true;
  chunks = record { part = []; version = []; name = []; artifacts = artifact ∷ [] } ∷ [];
}

on_deployment_action_example :
    run_callback (world (RestoreCall.endpoint_call [])) (on_deployment_action 1 2 deployment) start
    ≡ Monad.◌>>=◌
        (download_all 1 2 (world (RestoreCall.endpoint_call [])) (artifact ∷ []))
        (λ _. pure (some (full_response 1 2 deployment)))
        start
on_deployment_action_example =
    on_deployment_action_lem 1 2 (world (RestoreCall.endpoint_call [])) deployment start

-- Each variable holds a URI, and each file the same certificate.
abbrev system : System
system = record { getenv = λ name. some (codes "https://h"); content = λ path. some (codes "crt") }

abbrev address : Uri
address = record {
  scheme = codes "https";
  authority = codes "h";
  path = [];
  query = [];
  fragment = [];
}

address_read : from_string (codes "https://h") ≡ ok address
unfolding from_string
address_read = refl

abbrev dps_client : ProvisioningClient
dps_client = record {
  crt = codes "crt";
  provisioning_uri = address;
  provisioning_headers = (codes "X-Apig-AppCode", codes "https://h") ∷ [];
}

-- The first attempt cannot connect.
abbrev second_answer : ℕ → Request → Result HttpResult
second_answer zero r = ok (no_reply HttpError.connection)
second_answer (suc n) r = ok (reply 200 body)

abbrev payload : ProvisioningData
payload = record {
  key_pair = record { crt = codes "c"; key = codes "k" };
  up2date_endpoint = codes "e";
}

first-Fails :
    (j : ℕ) → j < 1 → Fails (do_provisioning (knowing granted) (second_answer j) dps_client)
unfolding do_provisioning error_num
first-Fails zero h = (httplib_error 2, refl)
first-Fails (suc j) h = absurd (omega (arith, h))

standalone_client_example :
    standalone_client system 1
    ≡ value (record {
      hawkbit_uri = record {
        scheme = codes "https";
        authority = codes "h";
        path = controller_path (codes "https://h") (codes "default");
        query = [];
        fragment = [];
      };
      default_headers = (codes "Authorization", codes "GatewayToken https://h") ∷ [];
      handler = some 1;
      auth_error_handler = none;
      default_sleep_time = pos 30000;
      current_sleep_time = pos 30000;
      ignore_sleep = false;
      is_running = false;
      poll_requested = false;
      server_certificate_verify = false;
      tls = no_keypair;
    })
standalone_client_example =
    standalone_client_lem system 1 (codes "https://h") (codes "https://h") (codes "https://h")
      address refl refl refl address_read (λ e. cc) (ground arith)

abbrev moved : ProvisioningData
moved = record payload { up2date_endpoint = codes "https://h" }

-- The first attempt ends with an exception.
abbrev second_payload : ℕ → Result ProvisioningData
second_payload zero = throw (httplib_error 2)
second_payload (suc n) = ok moved

first_payload-Fails : (j : ℕ) → j < 1 → Fails (second_payload j)
first_payload-Fails zero h = (httplib_error 2, refl)
first_payload-Fails (suc j) h = absurd (omega (arith, h))

reload_restores_example :
    reload second_payload 2 0 client
    ≡ some (ok tt, record (set_tls (codes "c") (codes "k") client) { hawkbit_uri = address })
reload_restores_example =
    reload_restores second_payload 1 0 2 client moved address
      (λ j h. first_payload-Fails (0 + j) (omega (arith, h))) refl address_read (omega arith)
