-- ===== src/Unix/Agrees.antt =====
-- `Get` with handlers on Unix and on Windows.
use up2date_cpp.Base.{
  ℕ, ◌≡◌, refl, ◌∙◌, ap, sym, Bool, Bool-cases, inl, inr, Option, none, some, List, [], length, ◌<◌,
  ◌==◌,
}
use up2date_cpp.Text.{Text, codes}
use up2date_cpp.Outcome.{Result, ok, throw, fault, is_success, ◌>>=◌}
use up2date_cpp.Multimap.{Multimap}
use up2date_cpp.Ddi.Session.Monad.{HttpResult}
use up2date_cpp.Http.{UserHandlers}
use up2date_cpp.Unix.{OpenSsl, to_http_lib_result}
use up2date_cpp.Win.Api.{WinHttp, WinHistory}
use up2date_cpp.Win.Keys.{WinCrypt}
use up2date_cpp.Win.Request.Succeeds.{Succeeds}
use up2date_cpp.Win.Client.{WinClient, win_get_with, request_config, result_with}
use up2date_cpp.Win.Client.Gets.{Answers, win_get_with_lem}
use up2date_cpp.Unix.Client.{HttpLib, ended_as, converted, unix_get_with, Streams}

-- Whether a request succeeded, or its exception.
abbrev pub succeeded : Result HttpResult → Result Bool
succeeded r = r >>= λ result. ok (is_success result.error)

abbrev pub succeeded_option : Option (Result HttpResult) → Option (Result Bool)
succeeded_option none = none
succeeded_option (some r) = some (succeeded r)

same_success :
    (status : ℕ) (r : Result ℕ)
    → succeeded (ended_as status r >>= to_http_lib_result)
      ≡ succeeded (r >>= λ error. ok (result_with (record { status = status; body = [] }) error))
unfolding to_http_lib_result
same_success status (ok error) = elim (Bool-cases (error == 0)) [
  | inl zero_error ↦ rw zero_error refl
  | inr other ↦ rw other refl
]
same_success status (throw e) = refl
same_success status (fault x) = refl

-- The two clients agree: where cpp-httplib hands the status and the pieces of a response to its
-- callbacks as documented, and WinHTTP works and has the same status and pieces, a `Get` with
-- handlers leaves the same state of the user on Unix and on Windows, and succeeds on one exactly
-- if it succeeds on the other, with the same exception where a handler throws.
pub get_with_agrees :
    {ssl : OpenSsl} (lib : HttpLib ssl) (cli : lib.Cli) (win : WinHttp) (works : Succeeds win)
    (crypt : WinCrypt) (store_fuel fuel : ℕ) (client : WinClient) (no_keys : client.kp ≡ none)
    {U : Type 0} (handlers : UserHandlers U) (path : Text) (headers : Multimap)
    (history : WinHistory) (user : U) (status : ℕ) (pieces : List Text)
    → Streams lib cli path headers status pieces
    → Answers win (request_config client (codes "GET") path headers []) history status pieces
    → length pieces < fuel
    → let unix = unix_get_with lib handlers cli path headers user in
      let windows =
        win_get_with win crypt store_fuel fuel client handlers path headers history user in
      (succeeded_option windows.result ≡ some (succeeded unix.0)) × (windows.context.user ≡ unix.1)
unfolding unix_get_with
get_with_agrees lib cli win works crypt store_fuel fuel client no_keys handlers path headers history
      user status pieces s a h =
    let w =
      win_get_with_lem win works crypt store_fuel fuel client no_keys handlers path headers history
        user status pieces a h in
    let u = ap (converted lib) (
      s.streams (λ code. handlers.response_handler (record { status = code; body = [] }))
        handlers.content_receiver user) in
    (
      ap succeeded_option w.0 ∙ ap some (sym (ap (λ x. succeeded x.0) u ∙ same_success status _)),
      w.1 ∙ sym (ap (λ x. x.1) u),
    )
