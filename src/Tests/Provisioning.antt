-- ===== src/Tests/Provisioning.antt =====
-- Theorems about the dps library, at concrete answers of the service.
use up2date_cpp.Base.{ℕ, ◌≡◌, ◌↔◌, refl, inr, []}
use up2date_cpp.Text.{codes, c_str, equal}
use up2date_cpp.Outcome.{Result, ok, throw, provisioning_error}
use up2date_cpp.Ddi.Session.Monad.{Request, HttpResult}
use up2date_cpp.Ddi.Session.Requests.{reply}
use up2date_cpp.Tests.Library.{
  Document, words, empty_object, with_member, knowing, knowing-BuildLaws,
}
use up2date_cpp.Json.{text_member}
use up2date_cpp.Tests.World.{body, old_endpoint}
use up2date_cpp.Dps.{
  ProvisioningClient, TokenExchanger, format_certificate_update_payload, do_provisioning,
}
use up2date_cpp.Dps.Answers.{Grants, do_provisioning_exchanges}
use up2date_cpp.Dps.Failures.{Failure, do_provisioning-Failure}

-- {"crt": "c", "key": "k", "endpoint": "e"}
abbrev pub granted : Document
granted =
    with_member
      (with_member (with_member empty_object (codes "crt") (words (codes "c"))) (codes "key")
        (words (codes "k")))
      (codes "endpoint") (words (codes "e"))

abbrev device : ProvisioningClient
device = record { crt = codes "own"; provisioning_uri = old_endpoint; provisioning_headers = [] }

abbrev answers_with : ℕ → Request → Result HttpResult
answers_with status r = ok (reply status body)

granted-Grants :
    Grants (knowing granted) (answers_with 201) 201 body (codes "c") (codes "k") (codes "e")
unfolding equal c_str
granted-Grants = record {
  document = granted;
  crt_value = words (codes "c");
  key_value = words (codes "k");
  endpoint_value = words (codes "e");
  is_accepted = inr refl;
  parsed = refl;
  crt_found = refl;
  key_found = refl;
  endpoint_found = refl;
  crt_text = refl;
  key_text = refl;
  endpoint_text = refl;
}

exchanges_example :
    ((posted : Document) × (format_certificate_update_payload (knowing granted) device
        ≡ c_str ((knowing granted).write posted))
      × (text_member (knowing granted) posted (codes "tq") ≡ ok (c_str (codes "own"))))
    × (do_provisioning (knowing granted) (answers_with 201) device
        ≡ ok (record {
          key_pair = record { crt = c_str (codes "c"); key = c_str (codes "k") };
          up2date_endpoint = c_str (codes "e");
        }))
exchanges_example =
    do_provisioning_exchanges (knowing granted) (answers_with 201) (knowing-BuildLaws granted)
      device 201 body (codes "c") (codes "k") (codes "e") refl granted-Grants

abbrev exchanger : TokenExchanger
exchanger = record { url = old_endpoint; ott = codes "once" }

errors_example :
    (do_provisioning (knowing granted) (answers_with 500) device ≡ throw (provisioning_error 500))
    ↔ Failure (knowing granted) (answers_with 500) device (provisioning_error 500)
errors_example =
    do_provisioning-Failure (knowing granted) (answers_with 500) device (provisioning_error 500)
