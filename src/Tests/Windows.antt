-- ===== src/Tests/Windows.antt =====
-- A system on which map_text request is answered with "abc", and requests on it.
use up2date_cpp.Base.{
  ℕ, ◌+◌, ◌≡◌, refl, true, false, none, some, [], ◌∷◌, ◌==◌, if◌then◌else◌, arith,
}
use up2date_cpp.Base.Int.{pos}
use up2date_cpp.Text.{codes, equal, c_str}
use up2date_cpp.Outcome.{ok}
use up2date_cpp.Win.Api.{
  session, WinHttp, read_asked, receive_response, WinHistory, Answer, got, failed, Call, acquire,
}
use up2date_cpp.Win.Host.{extract_data_from_host, extract_data_from_host_port, HostData}
use up2date_cpp.Win.Request.{RequestConfig, do_http_request_ctx, call, of_result}
use up2date_cpp.Win.Request.Clean.{Balanced, do_http_request_ctx_releases}
use up2date_cpp.Win.Request.Delivers.{sends_none, sends_piece, deliver, delivered}
use up2date_cpp.Win.Request.Succeeds.{Succeeds, seen_end, do_http_request_ctx_delivers}
use up2date_cpp.Win.Keys.{WinCrypt}
use up2date_cpp.Multimap.{Multimap}
use up2date_cpp.Tests.Certificates.{bytes}
use up2date_cpp.Unix.Client.{HttpLib, Streams, ended_as, unix_get_with}
use up2date_cpp.Unix.Agrees.{succeeded, succeeded_option, get_with_agrees}
use up2date_cpp.Ddi.Session.Requests.{reply}
use up2date_cpp.Http.{UserHandlers}
use up2date_cpp.Win.Client.{
  WinClient, nothing_received, plain_handlers, win_get_with, request_config, format_headers,
  simple_status_code_reader, string_data_reader,
}
use up2date_cpp.Win.Client.Headers.{read_headers, read_headers-format_headers}
use up2date_cpp.Win.Client.Gets.{Answers}
use up2date_cpp.Text.Scan.{digits_onto}

-- Three bytes, until they are read.
abbrev available_of : WinHistory → Answer ℕ
available_of [] = got 3
available_of (read_asked n ∷ h) = got 0
available_of (_ ∷ h) = available_of h

abbrev pub working : WinHttp
working = record {
  widen = λ t. t;
  answer = λ h c. got tt;
  status = λ h. some 200;
  available = available_of;
  read = λ h n. got (codes "abc");
}

pub working-Succeeds : Succeeds working
working-Succeeds = record { success = λ h c. refl }

-- A system on which no response arrives.
abbrev no_response : Call → Answer (Unit {0})
no_response receive_response = failed 12002
no_response _ = got tt

abbrev pub silent : WinHttp
silent = record working { answer = λ h c. no_response c }

abbrev pub config : RequestConfig
config = record {
  scheme = codes "https";
  host = codes "host";
  path = codes "/p";
  method = codes "GET";
  headers = codes "\r\n";
  body = [];
  verify = false;
}

abbrev host_of_config : HostData
host_of_config = record { host = codes "host"; port = pos 443; is_https = true }

extract_data_from_host_port_example :
    extract_data_from_host (codes "host:8443") (codes "https")
    ≡ ok (record { host = codes "host"; port = pos 8443; is_https = false })
unfolding extract_data_from_host digits_onto
extract_data_from_host_port_example =
    extract_data_from_host_port (codes "host") (codes "https") 8443
      (refl, (refl, (refl, (refl, tt)))) (omega arith)

do_http_request_ctx_releases_example :
    Balanced session []
      (do_http_request_ctx silent plain_handlers 1 config false [] nothing_received).history
unfolding call acquire of_result equal
do_http_request_ctx_releases_example =
    do_http_request_ctx_releases silent plain_handlers 1 config false [] nothing_received 12002
      session (unfold do_http_request_ctx in refl)

do_http_request_ctx_delivers_example :
    seen_end (do_http_request_ctx working plain_handlers 2 config false [] nothing_received)
    ≡ (some (ok 0), record { status_code = 200; resp = codes "abc" })
unfolding equal simple_status_code_reader string_data_reader
do_http_request_ctx_delivers_example =
    do_http_request_ctx_delivers working working-Succeeds plain_handlers config false 2
      (codes "abc" ∷ []) [] nothing_received host_of_config 200
      (unfold extract_data_from_host in refl) refl (sends_piece refl refl refl (sends_none refl))
      (omega arith)

read_headers-format_headers_example :
    read_headers 2 (format_headers ((codes "Accept", codes "a:b") ∷ []))
    ≡ some ((codes "Accept", codes "a:b") ∷ [])
read_headers-format_headers_example =
    read_headers-format_headers 2 ((codes "Accept", codes "a:b") ∷ [])
      (((refl, (refl, (refl, (refl, (refl, (refl, tt)))))), (refl, (refl, (refl, tt)))), tt)
      (omega arith)

-- Every text is its own certificate.
abbrev pub all_known : WinCrypt
all_known = record {
  lists = λ h. false;
  text_size = λ h s. got (3, 0);
  text_bytes = λ h s. got s;
  blob_size = λ h s. got 3;
  blob_bytes = λ h s. got s;
}

abbrev client : WinClient
client = record {
  base_address = record {
    scheme = codes "https";
    authority = codes "host";
    path = [];
    query = [];
    fragment = [];
  };
  kp = none;
  server_verify = true;
}

client-Answers :
    Answers working
      (request_config client (codes "GET") (codes "/p") [] [])
      []
      200
      (codes "abc" ∷ [])
unfolding request_config extract_data_from_host c_str equal
client-Answers = record {
  target = host_of_config;
  host_known = refl;
  status_known = refl;
  sends = sends_piece refl refl refl (sends_none refl);
}

-- A receiver that counts the pieces and refuses the second one.
abbrev counting : UserHandlers ℕ
counting = record {
  response_handler = λ r n. (ok true, n);
  content_receiver = λ piece n. (ok (if n == 0 then true else false), n + 1);
}

-- A library whose server answers each request with "abc".
abbrev http_lib : HttpLib bytes
http_lib = record {
  Cli = Unit {0};
  Headers = Multimap;
  plain_cli = λ t. ok tt;
  keyed_cli = λ t l. ok tt;
  verify = λ b c. c;
  headers_of = λ m. m;
  get = λ c path h. reply 200 (codes "abc");
  get_with = λ c path h on_status receiver user.
      (let run = delivered receiver (deliver receiver (codes "abc" ∷ [])) (on_status 200 user) in
        (ended_as 200 run.0, run.1));
  post = λ c path h body kind. reply 200 (codes "abc");
  put = λ c path h body kind. reply 200 (codes "abc");
}

http_lib-Streams : Streams http_lib tt (codes "/p") [] 200 (codes "abc" ∷ [])
http_lib-Streams = record { streams = λ on_status receiver user. refl }

get_with_agrees_example :
    let unix = unix_get_with http_lib counting tt (codes "/p") [] 0 in
    let windows = win_get_with working all_known 1 2 client counting (codes "/p") [] [] 0 in
    (succeeded_option windows.result ≡ some (succeeded unix.0)) × (windows.context.user ≡ unix.1)
get_with_agrees_example =
    get_with_agrees http_lib tt working working-Succeeds all_known 1 2 client refl counting
      (codes "/p") [] [] 0 200 (codes "abc" ∷ []) http_lib-Streams client-Answers (omega arith)
