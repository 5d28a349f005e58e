-- ===== src/Dps.antt =====
-- The dps library: dps/src/ritms_dps_impl.cpp, dps/src/provisioning_client_impl.cpp and
-- dps/src/ritms_token_exchanger_impl.cpp. One request fetches a key pair or a certificate.
pub mod Answers
pub mod Failures
use up2date_cpp.Base.{
  Bool, true, false, not, ◌&&◌, ◌==◌, ℕ, Option, none, some, [], ◌++◌, if◌then◌else◌,
}
use up2date_cpp.Text.{Text, codes, c_str}
use up2date_cpp.Outcome.{
  Exception, Result, ok, throw, error_num, is_success, httplib_error, provisioning_error,
  up2date_cloud_error, throw_if, ◌>>=◌, ◌>>◌,
}
use up2date_cpp.Multimap.{Multimap, insert}
use up2date_cpp.Uri.{Uri, no_uri, from_string}
use up2date_cpp.Json.{RapidJson, has_member, text_member}
use up2date_cpp.Ddi.Session.Monad.{Connection, post, Request, Reply, HttpResult, dereferenced}

-- `class mTLSKeyPair_impl` and `class ProvisioningData_impl`
pub record KeyPair : Type 0 where
  pub crt : Text
  pub key : Text

pub record ProvisioningData : Type 0 where
  pub key_pair : KeyPair
  pub up2date_endpoint : Text

-- `class ProvisioningClient_impl` and its builder, which have the same fields.
pub record ProvisioningClient : Type 0 where
  pub crt : Text
  pub provisioning_uri : Uri
  pub provisioning_headers : Multimap

-- `CloudProvisioningClientBuilder::newInstance`
unfoldable pub new_provisioning_builder : ProvisioningClient
new_provisioning_builder = record { crt = []; provisioning_uri = no_uri; provisioning_headers = [] }

unfoldable pub set_auth_crt : Text → ProvisioningClient → ProvisioningClient
set_auth_crt crt b = record b { crt = crt }

unfoldable pub set_provisioning_endpoint : Text → ProvisioningClient → Result ProvisioningClient
set_provisioning_endpoint endpoint b = do
  u ← from_string endpoint
  ok (record b { provisioning_uri = u })

unfoldable pub add_provisioning_header : Text → Text → ProvisioningClient → ProvisioningClient
add_provisioning_header k v b = record b {
  provisioning_headers = insert k v b.provisioning_headers;
}

unfoldable pub build_provisioning : ProvisioningClient → ProvisioningClient
build_provisioning b = record {
  crt = b.crt;
  provisioning_uri = b.provisioning_uri;
  provisioning_headers = b.provisioning_headers;
}

-- `class TokenExchanger_impl`
pub record TokenExchanger : Type 0 where
  pub url : Uri
  pub ott : Text

-- `buildCloudExchanger`
unfoldable pub build_cloud_exchanger : Text → Text → Result TokenExchanger
build_cloud_exchanger url token = do u ← from_string url; ok (record { url = u; ott = token })

-- `httpclient::Client(endpoint).Post(path, headers, body, "application/json")`
unfoldable pub post_request : Uri → Multimap → Text → Request
post_request u headers body = record {
  connection = record {
    server = u.scheme ++ (codes "://" ++ u.authority);
    keypair = none;
    verify = none;
  };
  method = post body (codes "application/json");
  path = c_str u.path;
  headers = headers;
}

abbrev pub dps_ok : ℕ
dps_ok = 200

abbrev pub dps_created : ℕ
dps_created = 201

abbrev pub bad_payload : Exception
bad_payload = up2date_cloud_error (codes "Bad payload received from DPS")

-- The response of a request that had no error.
unfoldable pub response_of : HttpResult → Result Reply
response_of result = do
  if is_success result.error then ok tt else throw (httplib_error (error_num result.error))
  dereferenced result.response

module _ (json : RapidJson) where
  -- `if (…HasParseError() || …) throw up2date_cloud_error(…)`
  abbrev pub parsed_answer : Option json.Value → Result json.Value
  parsed_answer none = throw bad_payload
  parsed_answer (some v) = ok v

  abbrev pub must_have : json.Value → Text → Result (Unit {0})
  must_have v k = do b ← has_member json v k; throw_if (not b) bad_payload

  -- `formatCertificateUpdatePayload`
  unfoldable pub format_certificate_update_payload : ProvisioningClient → Text
  format_certificate_update_payload client =
      c_str (json.write (json.add_member json.empty_object (codes "tq") (json.string client.crt)))

  unfoldable pub read_provisioning : Text → Result ProvisioningData
  read_provisioning body = do
    document ← parsed_answer (json.parse (c_str body))
    must_have document (codes "crt")
    must_have document (codes "endpoint")
    must_have document (codes "key")
    crt ← text_member json document (codes "crt")
    key ← text_member json document (codes "key")
    endpoint ← text_member json document (codes "endpoint")
    ok (record { key_pair = record { crt = crt; key = key }; up2date_endpoint = endpoint })

  unfoldable pub read_certificate : Text → Result Text
  read_certificate body = do
    document ← parsed_answer (json.parse (c_str body))
    must_have document (codes "crt")
    text_member json document (codes "crt")

  -- The document that `exchange` posts.
  unfoldable pub token_payload : TokenExchanger → Text
  token_payload exchanger = c_str (
      json.write
        (json.add_member json.empty_object (codes "oneTimeToken") (json.string exchanger.ott)))

  -- `answer` is what the service answers, or the exception of the constructor of the HTTP client.
  module _ (answer : Request → Result HttpResult) where
    -- `doProvisioning`
    unfoldable pub do_provisioning : ProvisioningClient → Result ProvisioningData
    unfolding post_request response_of read_provisioning format_certificate_update_payload
    do_provisioning client = do
      let payload = format_certificate_update_payload client
      result ← answer (post_request client.provisioning_uri client.provisioning_headers payload)
      response ← response_of result
      throw_if (not (response.status == dps_ok) && not (response.status == dps_created))
          (provisioning_error response.status)
      read_provisioning response.body

    -- `exchange`: both tests of the status are for 200.
    unfoldable pub exchange_token : TokenExchanger → Result Text
    unfolding post_request response_of read_certificate token_payload
    exchange_token exchanger = do
      result ← answer (post_request exchanger.url [] (token_payload exchanger))
      response ← response_of result
      throw_if (not (response.status == dps_ok) && not (response.status == dps_ok))
          (provisioning_error response.status)
      read_certificate response.body
