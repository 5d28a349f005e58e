-- ===== src/Unix/Results.antt =====
-- What a request of the client makes of a result that came through `toHttpLibResult`.
use up2date_cpp.Base.{◌≡◌, ◌≢◌, arith}
use up2date_cpp.Outcome.{Fault, ok, fault}
use up2date_cpp.Ddi.Session.Monad.{HttpResult}
use up2date_cpp.Ddi.Session.Requests.{check_http_code}
use up2date_cpp.Ddi.Session.Retry.{judge}
use up2date_cpp.Unix.{to_http_lib_result}

-- A result that `toHttpLibResult` made is judged by `wrappedRequest` without a fault: a response
-- is there whenever the error is Success.
pub to_http_lib_result-judge :
    (r s : HttpResult) (x : Fault) → to_http_lib_result r ≡ ok s → judge s ≢ fault x
unfolding to_http_lib_result check_http_code
to_http_lib_result-judge r s x h k = ground arith
