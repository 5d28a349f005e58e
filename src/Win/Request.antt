-- ===== src/Win/Request.antt =====
-- `do_http_request_ctx` of modules/src/win/win_http.c: one request, with `goto clean`. LocalAlloc
-- is taken to succeed, since its result is not tested.
pub mod Clean
pub mod Delivers
pub mod Releases
pub mod Succeeds
use up2date_cpp.Base.{
  ℕ, zero, suc, ◌+◌, ◌%◌, ◌^◌, Bool, true, false, not, Option, none, some, [], ◌∷◌, length, ltb,
  if◌then◌else◌,
}
use up2date_cpp.Text.{Text, c_str}
use up2date_cpp.Outcome.{Exception, Fault, Result, ok, throw, fault, out_of_bounds}
use up2date_cpp.Win.Host.{HostData, extract_data_from_host, port_word}
use up2date_cpp.Win.Api.{
  session, connection, request, host_text, method_text, path_text, headers_text, buffer, Call,
  acquired, open_session, connect_to, open_request, set_certificate, ignore_checks, send_request,
  receive_response, called, status_asked, available_asked, read_asked, Answer, got, failed, WinHttp,
  WinHistory, all_null, WinState, Jump, go, clean_with, thrown, crashed, unfinished, Proc, ◌>>=◌,
  ◌>>◌, proceed, goto_clean, crash, note, acquire, release, release_if, of_answer,
}

-- `struct request_config`; the texts are C strings, and `body` is `pvBody` with its size.
pub record RequestConfig : Type 0 where
  pub scheme : Text
  pub host : Text
  pub path : Text
  pub method : Text
  pub headers : Text
  pub body : Text
  pub verify : Bool

-- `pfRetCodeHandler` and `pfContentReceiver` with their context. A handler is C++ and may throw.
pub record Handlers (C : Type 0) : Type 0 where
  pub ret_code_handler : ℕ → C → Result Bool × C
  pub content_receiver : Text → C → Result Bool × C

-- `ERROR_API_UNAVAILABLE` and `ERROR_CANCELLED`
abbrev error_api_unavailable : ℕ
error_api_unavailable = 15841

abbrev pub error_cancelled : ℕ
error_cancelled = 1223

-- `sizeof(DWORD)`: the loop reads that many bytes at a time.
abbrev pub dw_size : ℕ
dw_size = 4

module _ {C : Type 0} where
  abbrev pub handled : Result Bool × C → Proc C Bool
  handled (ok b, c) s = (go b, record s { context = c })
  handled (throw e, c) s = (thrown e, record s { context = c })
  handled (fault x, c) s = (crashed x, record s { context = c })

  -- A call of a handler.
  unfoldable pub handle : (C → Result Bool × C) → Proc C Bool
  handle f s = handled (f s.context) s

  unfoldable pub of_result : {A : Type 0} → Result A → Proc C A
  of_result (ok a) s = (go a, s)
  of_result (throw e) s = (thrown e, s)
  of_result (fault x) s = (crashed x, s)

module _ (win : WinHttp) {C : Type 0} where
  unfoldable pub call : Call → Proc C (Unit {0})
  unfolding ◌>>=◌ note proceed goto_clean
  call c s = (note (called c) >> of_answer (win.answer s.history c)) s

  unfoldable pub ask_status : Proc C (Option ℕ)
  unfolding ◌>>=◌ note proceed goto_clean
  ask_status s = (note status_asked >> proceed (win.status s.history)) s

  abbrev pub status_or_error : Option ℕ → Proc C ℕ
  status_or_error none = goto_clean error_api_unavailable
  status_or_error (some code) = proceed code

  unfoldable pub ask_available : Proc C ℕ
  unfolding ◌>>=◌ note proceed goto_clean
  ask_available s = (note available_asked >> of_answer (win.available s.history)) s

  -- The data must fit into the buffer.
  abbrev pub in_buffer : ℕ → Answer Text → Proc C (Answer Text)
  in_buffer size (failed code) = proceed (failed code)
  in_buffer size (got piece) =
      if ltb size (length piece) then crash out_of_bounds else proceed (got piece)

  -- `WinHttpReadData(hRequest, buffer, dwSize, &dwActSize)`
  unfoldable pub read_into : ℕ → Proc C (Answer Text)
  unfolding ◌>>=◌ note proceed crash
  read_into size s = (note (read_asked dw_size) >> in_buffer size (win.read s.history dw_size)) s

  module _ (handlers : Handlers C) where
    abbrev pub continue_if : Bool → Proc C (Option ℕ)
    continue_if true = proceed none
    continue_if false = proceed (some error_cancelled)

    -- What was read goes to the receiver; `some` is `bError` with its code.
    abbrev pub after_read : Answer Text → Proc C (Option ℕ)
    after_read (failed code) = proceed (some code)
    after_read (got piece) = handle (handlers.content_receiver piece) >>= continue_if

    -- One round of the `while (1)` loop, with the bytes that are available; the buffer is a
    -- variable of the round.
    unfoldable pub read_round : ℕ → Proc C (Option ℕ)
    unfolding ◌>>=◌ note proceed handle read_into
    read_round n = do
      note (acquired buffer)
      piece ← read_into ((n + 1) % 2 ^ 32)
      broken ← after_read piece
      release buffer
      proceed broken

    abbrev pub next_round : Proc C ℕ → Option ℕ → Proc C ℕ
    next_round rest none = rest
    next_round rest (some code) = proceed code

    abbrev pub if_available : Proc C ℕ → ℕ → Proc C ℕ
    if_available rest zero = proceed 0
    if_available rest (suc n) = read_round (suc n) >>= next_round rest

    -- The `while (1)` loop; a `break` leads to the label `clean`.
    unfoldable pub receive_loop : ℕ → Proc C ℕ
    unfolding read_round
    receive_loop zero = λ s. (unfinished, s)
    receive_loop (suc fuel) = ask_available >>= if_available (receive_loop fuel)

    abbrev pub receive_if : Proc C ℕ → Bool → Proc C ℕ
    receive_if loop true = loop
    receive_if loop false = goto_clean error_cancelled

    -- From `WinHttpOpenRequest` on.
    unfoldable pub exchange : ℕ → RequestConfig → Bool → Bool → Proc C ℕ
    unfolding receive_loop
    exchange fuel config with_certificate is_https = do
      call (open_request (win.widen config.method) (win.widen config.path) is_https)
      acquire request
      if is_https then call (set_certificate with_certificate) else proceed tt
      if config.verify then proceed tt else call ignore_checks
      acquire headers_text
      call (send_request (win.widen config.headers) config.body)
      call receive_response
      status ← ask_status
      code ← status_or_error status
      wanted ← handle (handlers.ret_code_handler code)
      receive_if (receive_loop fuel) wanted

    -- The statements before the label.
    unfoldable pub request_body : ℕ → RequestConfig → Bool → Proc C ℕ
    unfolding exchange extract_data_from_host
    request_body fuel config with_certificate = do
      call open_session
      acquire session
      target ← of_result (extract_data_from_host config.host config.scheme)
      acquire host_text
      call (connect_to (win.widen target.host) (port_word target.port))
      acquire connection
      acquire method_text
      acquire path_text
      exchange fuel config with_certificate target.is_https

-- The statements behind the label.
unfoldable pub clean : {C : Type 0} → Proc C (Unit {0})
clean = do
  release_if host_text
  release_if method_text
  release_if path_text
  release_if headers_text
  release_if request
  release_if connection
  release_if session

-- How a function in C ends: with a code, an exception that passes through it, or a fault; `none`
-- means that the fuel ran out.
pub record RequestEnd (C : Type 0) : Type 0 where
  pub outcome : Option (Result ℕ)
  pub history : WinHistory
  pub context : C

abbrev pub ended : {C : Type 0} → Option (Result ℕ) → WinState C → RequestEnd C
ended outcome s = record { outcome = outcome; history = s.history; context = s.context }

-- The label is reached by falling through or by a jump; an exception passes it by.
unfoldable pub finish : {C : Type 0} → Proc C (Unit {0}) → Jump ℕ × WinState C → RequestEnd C
finish label (go code, s) = ended (some (ok code)) (label s).1
finish label (clean_with code, s) = ended (some (ok code)) (label s).1
finish label (thrown e, s) = ended (some (throw e)) s
finish label (crashed x, s) = ended (some (fault x)) s
finish label (unfinished, s) = ended none s

abbrev pub started : {C : Type 0} → WinHistory → C → WinState C
started history context = record { pointers = all_null; history = history; context = context }

-- `do_http_request_ctx`; whether there is a certificate context.
unfoldable pub do_http_request_ctx :
    WinHttp → {C : Type 0} → Handlers C → ℕ → RequestConfig → Bool → WinHistory → C → RequestEnd C
unfolding request_body finish clean
do_http_request_ctx win handlers fuel config with_certificate history context =
    finish clean (request_body win handlers fuel config with_certificate (started history context))
