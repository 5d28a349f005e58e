-- ===== src/Tests/Polls.antt =====
-- Theorems about whole polls and runs, with a server that offers a deployment.
use up2date_cpp.Text.Scan.{scan_int}
use up2date_cpp.Base.{Option, ◌≡◌, ◌≢◌, refl, true, some, []}
use up2date_cpp.Base.Int.{pos, negsuc}
use up2date_cpp.Text.{codes, c_str, equal}
use up2date_cpp.Outcome.{Fault, ok, fault}
use up2date_cpp.Uri.{Uri, from_string}
use up2date_cpp.Json.{RapidJson, has_member, member, text_member}
use up2date_cpp.Tests.Library.{Document, words, empty_object, with_member, knowing}
use up2date_cpp.Tests.World.{body, world, client, start}
use up2date_cpp.Tests.Documents.{deployment, deployment_value}
use up2date_cpp.Ddi.Response.{Finished, Execution, Response}
use up2date_cpp.Ddi.State.{RestoreCall, Signal}
use up2date_cpp.Ddi.State.Credentials.{IsExclusive}
use up2date_cpp.Ddi.Payload.Deployment.{
  deployment_base_from, read_maintenance_window, read_chunk, read_artifact, download_link,
  read_hashes,
}
use up2date_cpp.Ddi.Feedback.{
  status_object, add_action_id, fill_response_document, format_feedback_path,
}
use up2date_cpp.Ddi.Payload.Polling.{
  PollingData, deployment_base, polling_data_from_string, sleep_text, sleep_time_of, choose_action,
}
use up2date_cpp.Ddi.Session.Monad.{
  to_body, Callback, return, fetch, send_signal, Environment, Session, deployment_asked, ◌>>=◌,
}
use up2date_cpp.Ddi.Session.Requests.{
  reply, run_callback, retry_handler, wrapped_request, send, check_http_code,
}
use up2date_cpp.Ddi.Session.Keeps.{told, with_client}
use up2date_cpp.Ddi.Session.Sound.{OverUnix}
use up2date_cpp.Ddi.Session.Sound.Calls.{run_callback_no_fault}
use up2date_cpp.Ddi.Poll.{send_feedback, do_poll}
use up2date_cpp.Ddi.Session.Monad
use up2date_cpp.Example.Handler.{on_deployment_action}
use up2date_cpp.Example.Handler.Downloads.{all_artifacts, download_all, full_response}
use up2date_cpp.Example.Handler.Polls.{do_poll_downloads}
use up2date_cpp.Ddi.Poll.Exclusive.{run-IsExclusive}
use up2date_cpp.Ddi.Poll.Frame.{Frame, do_poll-Frame}
use up2date_cpp.Ddi.Poll.Deploys.{Offered, after_get, Deployed, do_poll_deploys}
use up2date_cpp.Ddi.Poll.Sends.{reported}
use up2date_cpp.Ddi.Poll.Loop.{poll_loop, run}
use up2date_cpp.Ddi.Poll.Loop.Lives.{RunEnds, run-RunEnds}
use up2date_cpp.Ddi.Poll.Loop.Keeps.{polled}
use up2date_cpp.Ddi.Poll.Loop.Stopping.{poll_loop_stops}
use up2date_cpp.Ddi.Payload.{parse_document, parse_href_object, stoi, each}
use up2date_cpp.Unix.{to_http_lib_result}

-- {"id": "5", "deployment": {…}, "_links": {"deploymentBase": {"href": "https://h/p"}}}
abbrev offered : Document
offered = with_member deployment (codes "_links") (
    with_member empty_object (codes "deploymentBase")
      (with_member empty_object (codes "href") (words (codes "https://h/p"))))

abbrev json : RapidJson
json = knowing offered

abbrev place : Uri
place = record {
  scheme = codes "https";
  authority = codes "h";
  path = codes "/p";
  query = [];
  fragment = [];
}

abbrev answer : Response
answer = record {
  finished = Finished.success;
  execution = Execution.closed;
  details = [];
  listener = some 9;
  ignore_sleep = true;
}

-- Downloads an artifact, stops the client and answers.
abbrev installs : Callback (Option Response)
installs = fetch place to_body (λ a. send_signal Signal.stop_signal (return (some answer)))

-- A server that answers every request.
abbrev server : Environment
server = record (world (RestoreCall.tls_call (codes "c") (codes "k"))) {
  exchange = λ h r. reply 200 body;
  on_deployment_action = λ n h d. installs;
}

abbrev named : PollingData
named = record { sleep_time = negsuc 0; action = deployment_base; follow_uri = place }

named_read : polling_data_from_string json body ≡ ok named
unfolding polling_data_from_string parse_document equal c_str sleep_text has_member sleep_time_of
    member choose_action parse_href_object from_string
named_read = refl

exclusive : IsExclusive client
exclusive = record { sorted = tt; exclusive = λ on. cc }

run-IsExclusive_example : IsExclusive (run server json 3 start).1.client
run-IsExclusive_example = run-IsExclusive json server 3 start exclusive

run-RunEnds_example : RunEnds json server [] (run server json 3 start)
run-RunEnds_example = run-RunEnds json server 3 start

do_poll-Frame_example : Frame client (do_poll json server start).1.client
do_poll-Frame_example = do_poll-Frame json server start

server-OverUnix : OverUnix server
unfolding to_http_lib_result
server-OverUnix = record { exchanged = λ h r. (reply 200 body, refl); streamed = λ h r e same. cc }

no_fault_example : (run_callback server installs start).0 ≢ fault Fault.null_pointer
no_fault_example = run_callback_no_fault server server-OverUnix installs start Fault.null_pointer

deployment_read : deployment_base_from json body ≡ ok deployment_value
unfolding deployment_base_from parse_document equal c_str has_member member text_member stoi
    scan_int read_maintenance_window each read_chunk read_artifact download_link parse_href_object
    from_string read_hashes
deployment_read = refl

-- The session that the handler leaves, and the document of its answer.
abbrev ended : Session
ended =
    (run_callback server installs
      (told (deployment_asked 1 deployment_value) (after_get json server client [] named))).1

abbrev document : Document
document =
    add_action_id json (with_member empty_object (codes "status") (status_object json answer))
      (pos 5)

deployment_ready : Offered json server client [] named deployment_value 1
unfolding check_http_code run_callback ◌>>=◌ retry_handler wrapped_request send
    fill_response_document format_feedback_path
deployment_ready = record {
  poll_reply = record { status = 200; body = body };
  poll_answered = refl;
  poll_read = named_read;
  is_deployment = refl;
  action_reply = record { status = 200; body = body };
  answered = refl;
  deployment_read = deployment_read;
  is_handler = refl;
}

deployed :
    Deployed json server client [] named deployment_value 1 answer document
      (codes "/p/feedback")
      ended
unfolding check_http_code run_callback ◌>>=◌ retry_handler wrapped_request send
    fill_response_document format_feedback_path
deployed = record {
  handled = refl;
  filled = refl;
  formed = refl;
  feedback_reply = record { status = 200; body = body };
  accepted = refl;
}

deploys_example :
    do_poll json server start
    ≡ (ok tt, reported json server place answer document (codes "/p/feedback") ended)
deploys_example =
    do_poll_deploys json server client [] named deployment_value 1 deployment_ready answer document
      (codes "/p/feedback") ended deployed

stops_example : poll_loop server json 2 start ≡ (
  ok (some tt),
  with_client
      (polled (reported json server place answer document (codes "/p/feedback") ended).client)
      (reported json server place answer document (codes "/p/feedback") ended),
)
stops_example =
    poll_loop_stops json server client [] named deployment_value 1 0
      (reported json server place answer document (codes "/p/feedback") ended) refl deployment_ready
      (λ a. tt) deploys_example

-- The server, with the handler of the examples.
abbrev example : Environment
example = record server { on_deployment_action = λ n h d. on_deployment_action 9 8 d }

example_ready : Offered json example client [] named deployment_value 1
unfolding check_http_code run_callback ◌>>=◌ retry_handler wrapped_request send
    fill_response_document format_feedback_path
example_ready = record {
  poll_reply = record { status = 200; body = body };
  poll_answered = refl;
  poll_read = named_read;
  is_deployment = refl;
  action_reply = record { status = 200; body = body };
  answered = refl;
  deployment_read = deployment_read;
  is_handler = refl;
}

downloads_example :
    do_poll json example start
    ≡ Monad.◌>>=◌
        (download_all 9 8 example (all_artifacts 9 8 deployment_value.chunks))
        (λ _. send_feedback json example place (pos 5) (some (full_response 9 8 deployment_value)))
        (told (deployment_asked 1 deployment_value) (after_get json example client [] named))
downloads_example =
    do_poll_downloads json example 9 8 client [] named deployment_value 1 example_ready refl
