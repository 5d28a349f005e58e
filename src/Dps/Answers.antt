-- ===== src/Dps/Answers.antt =====
-- What the provisioning client and the token exchanger make of the answers of the service.
use up2date_cpp.Base.{ℕ, ◌≡◌, ◌≢◌, ◌⊎◌, inl, inr, some, refl, arith}
use up2date_cpp.Text.{Text, codes, c_str}
use up2date_cpp.Outcome.{Result, ok, throw, provisioning_error}
use up2date_cpp.Json.Laws.{find_new, text_found}
use up2date_cpp.Json.{RapidJson, BuildLaws, has_member, member, text_member}
use up2date_cpp.Ddi.Session.Monad.{Request, HttpResult}
use up2date_cpp.Ddi.Session.Requests.{reply}
use up2date_cpp.Dps.{
  ProvisioningClient, TokenExchanger, read_provisioning, do_provisioning, exchange_token,
  response_of, post_request, format_certificate_update_payload,
}

module _ (json : RapidJson) where
  -- The request that `doProvisioning` makes.
  abbrev pub provisioning_request : ProvisioningClient → Request
  provisioning_request client =
      post_request client.provisioning_uri client.provisioning_headers
        (format_certificate_update_payload json client)

  module _ (answer : Request → Result HttpResult) where
    -- A reply with the status 200 or 201, whose body parses to an object with the texts of "crt",
    -- "key" and "endpoint", is returned as the key pair and the endpoint (as C strings).
    pub do_provisioning_reads :
        (client : ProvisioningClient) (status : ℕ) (body crt key endpoint : Text)
        (document u v w : json.Value)
        → answer (provisioning_request client) ≡ ok (reply status body)
        → (status ≡ 200) ⊎ (status ≡ 201)
        → json.parse (c_str body) ≡ some document
        → json.find_member document (codes "crt") ≡ some (some u)
        → json.find_member document (codes "key") ≡ some (some v)
        → json.find_member document (codes "endpoint") ≡ some (some w)
        → json.get_string u ≡ some crt
        → json.get_string v ≡ some key
        → json.get_string w ≡ some endpoint
        → do_provisioning json answer client
          ≡ ok (record {
            key_pair = record { crt = c_str crt; key = c_str key };
            up2date_endpoint = c_str endpoint;
          })
    unfolding do_provisioning post_request format_certificate_update_payload response_of
        read_provisioning has_member text_member member
    do_provisioning_reads client status body crt key endpoint document u v w sent (inl s) p a b c x
          y z =
        rw sent (rw s (rw p (rw a (rw c (rw b (rw x (rw y (rw z))))))))
    do_provisioning_reads client status body crt key endpoint document u v w sent (inr s) p a b c x
          y z =
        rw sent (rw s (rw p (rw a (rw c (rw b (rw x (rw y (rw z))))))))

    -- What the service gives: a status and a body that parses to an object with three texts.
    pub record Grants (status : ℕ) (body crt key endpoint : Text) : Type 0 where
      pub document : json.Value
      pub crt_value : json.Value
      pub key_value : json.Value
      pub endpoint_value : json.Value
      pub is_accepted : (status ≡ 200) ⊎ (status ≡ 201)
      pub parsed : json.parse (c_str body) ≡ some document
      pub crt_found : json.find_member document (codes "crt") ≡ some (some crt_value)
      pub key_found : json.find_member document (codes "key") ≡ some (some key_value)
      pub endpoint_found : json.find_member document (codes "endpoint") ≡ some (some endpoint_value)
      pub crt_text : json.get_string crt_value ≡ some crt
      pub key_text : json.get_string key_value ≡ some key
      pub endpoint_text : json.get_string endpoint_value ≡ some endpoint

    -- `doProvisioning` posts a document in which the service finds the certificate of the client
    -- (up to a NUL) under "tq"; where it answers this request with the status 200 or 201 and a
    -- body that parses to an object with the texts of "crt", "key" and "endpoint", these are
    -- returned as the key pair and the endpoint (as C strings).
    pub do_provisioning_exchanges :
        (laws : BuildLaws json) (client : ProvisioningClient) (status : ℕ)
        (body crt key endpoint : Text)
        → answer (provisioning_request client) ≡ ok (reply status body)
        → Grants status body crt key endpoint
        → ((posted : json.Value) × (format_certificate_update_payload json client
              ≡ c_str (json.write posted))
            × (text_member json posted (codes "tq") ≡ ok (c_str client.crt)))
          × (do_provisioning json answer client
              ≡ ok (record {
                key_pair = record { crt = c_str crt; key = c_str key };
                up2date_endpoint = c_str endpoint;
              }))
    unfolding format_certificate_update_payload
    do_provisioning_exchanges laws client status body crt key endpoint sent g = (
      (
        json.add_member json.empty_object (codes "tq") (json.string client.crt),
        refl,
        text_found json laws _ (codes "tq") client.crt
            (find_new json laws json.empty_object (codes "tq") _ (laws.find_empty _)),
      ),
      do_provisioning_reads client status body crt key endpoint g.document g.crt_value g.key_value
          g.endpoint_value sent g.is_accepted g.parsed g.crt_found g.key_found g.endpoint_found
          g.crt_text g.key_text g.endpoint_text,
    )

    -- `exchange` accepts the status 200 alone: for every other status, 201 included, it throws
    -- provisioning_error with that status, whatever the body.
    pub exchange_token_refuses :
        (exchanger : TokenExchanger) (status : ℕ) (body : Text)
        → ((request : Request) → answer request ≡ ok (reply status body))
        → status ≢ 200
        → exchange_token json answer exchanger ≡ throw (provisioning_error status)
    unfolding exchange_token response_of
    exchange_token_refuses exchanger status body sent other = rw sent (ground arith)
