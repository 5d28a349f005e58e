-- ===== src/Tests/Documents.antt =====
-- Theorems about documents, at concrete documents.
use up2date_cpp.Base.{List, false, true, ◌≡◌, refl, none, some, [], ◌∷◌, arith}
use up2date_cpp.Base.Int.{pos, negsuc}
use up2date_cpp.Text.{Text, codes, c_str, equal}
use up2date_cpp.Outcome.{ok, throw, unexpected_payload}
use up2date_cpp.Json.{has_member, member, text_member}
use up2date_cpp.Tests.Library.{
  Document, words, number, empty_object, empty_array, with_member, pushed, knowing,
  knowing-BuildLaws,
}
use up2date_cpp.Tests.World.{body}
use up2date_cpp.Ddi.Payload.{parse_href_object, parse_document, stoi, each}
use up2date_cpp.Ddi.Response.{Finished, Execution, Response, Mode}
use up2date_cpp.Ddi.Response.Added.{lookup}
use up2date_cpp.Ddi.Feedback.Config.{ReportsData, config_of, config_document-ReportsData}
use up2date_cpp.Ddi.Feedback.{fill_response_document, config_document}
use up2date_cpp.Ddi.Feedback.Reads.{Reports, fill_response_document-Reports}
use up2date_cpp.Ddi.Payload.Polling.{
  choose_action, polling_data_from_string, sleep_text, sleep_time_of,
}
use up2date_cpp.Ddi.Payload.Polling.Priority.{followed, first_link, choose_action_priority}
use up2date_cpp.Ddi.Payload.Polling.Errors.{polling_data_from_string_throws}
use up2date_cpp.Ddi.Payload.Cancel.{cancel_action_from_string}
use up2date_cpp.Ddi.Payload.Cancel.Ids.{cancel_action_ids}
use up2date_cpp.Ddi.Payload.Deployment.{
  DeploymentBase, Artifact, read_artifact, read_chunk, deployment_base_from, download_link,
  read_hashes, read_maintenance_window,
}
use up2date_cpp.Text.Scan.{scan_time, to_string, scan_int}
use up2date_cpp.Uri.{from_string}

abbrev answer : Response
answer = record {
  finished = Finished.failure;
  execution = Execution.closed;
  details = codes "a" ∷ codes "b" ∷ [];
  listener = none;
  ignore_sleep = false;
}

Reports_example :
    (document : Document) × (fill_response_document
        (knowing empty_object)
        (some answer)
        empty_object
        (pos 7)
      ≡ ok document)
    × Reports (knowing empty_object) (knowing-BuildLaws empty_object) answer (pos 7) document
Reports_example =
    fill_response_document-Reports (knowing empty_object) (knowing-BuildLaws empty_object) answer
      (pos 7)

-- {"href": "https://h/p"}
abbrev link : Document
link = with_member empty_object (codes "href") (words (codes "https://h/p"))

abbrev links : Document
links =
    with_member (with_member empty_object (codes "deploymentBase") link) (codes "cancelAction") link

priority_example :
    choose_action (knowing empty_object) links (negsuc 0)
    ≡ followed
        (knowing empty_object)
        (negsuc 0)
        (first_link (knowing empty_object) none (some link) (some link))
unfolding equal
priority_example =
    choose_action_priority (knowing empty_object) links (negsuc 0) none (some link) (some link) refl
      refl refl

-- {"config": {"polling": {"sleep": "soon"}}}
abbrev soon : Document
soon = with_member empty_object (codes "config") (
    with_member empty_object (codes "polling")
      (with_member empty_object (codes "sleep") (words (codes "soon"))))

soon_throws : polling_data_from_string (knowing soon) body ≡ throw unexpected_payload
unfolding polling_data_from_string parse_document equal c_str sleep_text has_member member
    text_member sleep_time_of scan_time
soon_throws = refl

throws_example : unexpected_payload ≡ unexpected_payload
throws_example = polling_data_from_string_throws (knowing soon) body unexpected_payload soon_throws

-- {"id": "4", "cancelAction": {"stopId": "12"}}
abbrev cancelled : Document
cancelled = with_member empty_object (codes "stopId") (words (codes "12"))

abbrev cancel : Document
cancel =
    with_member (with_member empty_object (codes "id") (words (codes "4"))) (codes "cancelAction")
      cancelled

cancel_example :
    cancel_action_from_string (knowing cancel) body ≡ ok (record { id = pos 4; stop_id = pos 12 })
unfolding equal c_str to_string
cancel_example =
    cancel_action_ids (knowing cancel) body cancel cancelled (words (codes "4"))
      (words (codes "12")) 4 12 refl refl refl refl refl refl (omega arith) (omega arith)

-- {"filename": "f", "size": 3, "_links": {"download-http": {…}}, "hashes": {…}}
abbrev hashes : Document
hashes =
    with_member
      (with_member (with_member empty_object (codes "md5") (words (codes "m"))) (codes "sha1")
        (words (codes "s")))
      (codes "sha256") (words (codes "t"))

abbrev artifact_links : Document
artifact_links = with_member empty_object (codes "download-http") link

abbrev artifact : Document
artifact =
    with_member
      (with_member
        (with_member (with_member empty_object (codes "filename") (words (codes "f")))
          (codes "size") (number (pos 3)))
        (codes "_links") artifact_links)
      (codes "hashes") hashes

abbrev artifact_value : Artifact
artifact_value = record {
  filename = codes "f";
  file_hash = record { sha1 = codes "s"; md5 = codes "m"; sha256 = codes "t" };
  file_size = pos 3;
  download_uri = record {
    scheme = codes "https";
    authority = codes "h";
    path = codes "/p";
    query = [];
    fragment = [];
  };
}

artifact_read : read_artifact (knowing empty_object) artifact ≡ ok artifact_value
unfolding read_artifact has_member equal member download_link text_member parse_href_object
    from_string c_str read_hashes
artifact_read = refl

abbrev pub chunk : Document
chunk =
    with_member
      (with_member
        (with_member (with_member empty_object (codes "part") (words (codes "os")))
          (codes "version") (words (codes "1")))
        (codes "name") (words (codes "n")))
      (codes "artifacts") (pushed empty_array artifact)

abbrev pub chunks : Document
chunks = pushed empty_array chunk

abbrev pub plan : Document
plan =
    with_member
      (with_member (with_member empty_object (codes "update") (words (codes "forced")))
        (codes "download") (words (codes "attempt")))
      (codes "chunks") chunks

abbrev pub deployment : Document
deployment =
    with_member (with_member empty_object (codes "id") (words (codes "5"))) (codes "deployment")
      plan

abbrev pub deployment_value : DeploymentBase
deployment_value = record {
  id = pos 5;
  download_type = codes "attempt";
  update_type = codes "forced";
  in_maintenance_window = true;
  chunks =
      record {
        part = codes "os";
        version = codes "1";
        name = codes "n";
        artifacts = artifact_value ∷ [];
      }
      ∷ [];
}

deployment_read : deployment_base_from (knowing deployment) body ≡ ok deployment_value
unfolding deployment_base_from parse_document equal c_str has_member member text_member stoi
    scan_int read_maintenance_window each read_chunk read_artifact download_link parse_href_object
    from_string read_hashes
deployment_read = refl

abbrev calls : List (Text × Text)
calls = (codes "os", codes "linux") ∷ (codes "hw", codes "board") ∷ (codes "os", codes "none") ∷ []

config_example :
    (document : Document) × (fill_response_document
        (knowing empty_object)
        (some answer)
        (config_document
          (knowing empty_object)
          (config_of (knowing empty_object) (knowing-BuildLaws empty_object) calls Mode.replace))
        (negsuc 0)
      ≡ ok document)
    × ReportsData
        (knowing empty_object)
        (knowing-BuildLaws empty_object)
        calls
        Mode.replace
        document
config_example =
    config_document-ReportsData (knowing empty_object) (knowing-BuildLaws empty_object) calls
      Mode.replace answer

lookup_first : lookup calls (codes "os") ≡ some (codes "linux")
unfolding lookup equal
lookup_first = refl
