-- ===== src/Win/Keys/Clear.antt =====
-- The label `clear` of `do_http_request_mtls_`, and what the whole function leaves behind.
use up2date_cpp.Base.{ℕ, ◌≡◌, refl, Bool, false, some, arith}
use up2date_cpp.Outcome.{ok}
use up2date_cpp.Win.Api.{
  Resource, number, same, session, connection, request, host_text, method_text, path_text,
  headers_text, buffer, store, decoded, key_blob, own_context, chain_context, listed_context,
  provider, key, WinHttp, WinHistory, nullified,
}
use up2date_cpp.Win.Request.{RequestConfig, Handlers, started}
use up2date_cpp.Win.Request.Clean.{
  Balanced, Cleans, Cleans-release_if, Cleans-then, Cleans-Balanced, finish-Balanced,
}
use up2date_cpp.Win.Keys.{KeyPair, WinCrypt, mtls_body, clear, do_http_request_with_keys}
use up2date_cpp.Win.Keys.Listed.{is_cleared}
use up2date_cpp.Win.Keys.Releases.{mtls_body-Step}

abbrev none_cleared : ℕ → Bool
none_cleared = nullified store (
    nullified provider (
      nullified key (
        nullified chain_context (
          nullified own_context
            (nullified listed_context (nullified key_blob (nullified decoded is_cleared)))))))

none_cleared_all : (r : Resource) → none_cleared (number r) ≡ false
none_cleared_all session = refl
none_cleared_all connection = refl
none_cleared_all request = refl
none_cleared_all host_text = refl
none_cleared_all method_text = refl
none_cleared_all path_text = refl
none_cleared_all headers_text = refl
none_cleared_all buffer = refl
none_cleared_all store = refl
none_cleared_all decoded = refl
none_cleared_all key_blob = refl
none_cleared_all own_context = refl
none_cleared_all chain_context = refl
none_cleared_all listed_context = refl
none_cleared_all provider = refl
none_cleared_all key = refl

clear-Cleans :
    (q : Resource) (start : WinHistory) {C : Type 0}
    → Cleans q start {C = C} is_cleared clear none_cleared
unfolding clear
clear-Cleans q start = Cleans-then q start (Cleans-release_if q start decoded refl) (
    Cleans-then q start (Cleans-release_if q start key_blob refl) (
      Cleans-then q start (Cleans-release_if q start listed_context refl) (
        Cleans-then q start (Cleans-release_if q start own_context refl) (
          Cleans-then q start (Cleans-release_if q start chain_context refl) (
            Cleans-then q start (Cleans-release_if q start key refl) (
              Cleans-then q start (Cleans-release_if q start provider refl)
                (Cleans-release_if q start store refl)))))))

-- A request with a key pair that ends with a code has released the store, the contexts of the
-- certificates, the key, its blob, and all that its inner request used, exactly as often as it
-- acquired them, wherever it ended. The text that is decoded and the provider of the keys are left
-- out.
pub do_http_request_with_keys_releases :
    (win : WinHttp) (crypt : WinCrypt) {C : Type 0} (handlers : Handlers C) (store_fuel fuel : ℕ)
    (config : RequestConfig) (pair : KeyPair) (history : WinHistory) (context : C) (code : ℕ)
    (q : Resource)
    → same decoded q ≡ false
    → same provider q ≡ false
    → (do_http_request_with_keys win crypt handlers store_fuel fuel config pair history
        context).outcome
      ≡ some (ok code)
    → Balanced q history
        (do_http_request_with_keys win crypt handlers store_fuel fuel config pair history
          context).history
unfolding do_http_request_with_keys
do_http_request_with_keys_releases win crypt handlers store_fuel fuel config pair history context
      code q not_text not_provider h =
    finish-Balanced q history is_cleared clear
      (Cleans-Balanced q history is_cleared none_cleared clear (clear-Cleans q history)
        (none_cleared_all q))
      (mtls_body win crypt handlers store_fuel fuel config pair (started history context)) _ code
      ((mtls_body-Step win crypt q history not_text not_provider handlers store_fuel fuel config
          pair).at
        (started history context) refl record { counts = omega arith; others = λ x. refl })
      h
