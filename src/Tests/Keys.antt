-- ===== src/Tests/Keys.antt =====
-- Theorems about key pairs on Windows, in a concrete system.
use up2date_cpp.Base.{ltb, suc, ◌≡◌, refl, some, [], ◌∷◌, ◌++◌, arith}
use up2date_cpp.Text.{Text, codes, equal, c_str}
use up2date_cpp.Outcome.{ok}
use up2date_cpp.Win.Api.{
  store, decoded, failed, acquired, all_null, assigned, WinState, ◌>>=◌, proceed, acquired_count,
  released_count,
}
use up2date_cpp.Win.Request.{started, finish}
use up2date_cpp.Win.Request.Clean.{Balanced}
use up2date_cpp.Win.Keys.{
  clear_store, WinCrypt, KeyPair, begin_certificate, advance, strstr, load_chain, clear,
  do_http_request_with_keys,
}
use up2date_cpp.Win.Keys.Chain.{Adds, Decodes, map_text, places, load_chain-places}
use up2date_cpp.Win.Keys.Clear.{do_http_request_with_keys_releases}
use up2date_cpp.Win.Keys.Ends.{Ends, load_chain-Ends}
use up2date_cpp.Win.Keys.Store.{listings, Deletes, clear_store-Deletes}
use up2date_cpp.Win.Keys.Twice.{load_chain_frees_twice}
use up2date_cpp.Win.Client.{nothing_received, plain_handlers}
use up2date_cpp.Tests.Windows.{all_known, working, working-Succeeds, silent, config}

-- No text can be decoded.
abbrev none_known : WinCrypt
none_known = record all_known { text_size = λ h s. failed 13 }

abbrev behind_first : Text → Text
behind_first [] = []
behind_first (c ∷ s) = s

abbrev two_certificates : Text
two_certificates = begin_certificate ++ b'a' ∷ begin_certificate ++ b'b' ∷ []

abbrev pair : KeyPair
pair = record { crt = two_certificates; key = codes "k" }

all_known-Decodes : Decodes all_known (λ s. s)
all_known-Decodes = record { size = 3; sizes = λ h s k. refl; bytes = λ h s k. refl }

-- Nothing is held, and nothing has happened.
abbrev fresh : WinState (Unit {0})
fresh = started [] tt

load_chain-places_example :
    Adds working working-Succeeds all_known
      (λ s. s)
      all_known-Decodes
      (map_text (λ s. s) (places (behind_first two_certificates)))
      fresh
      (load_chain working all_known 60 two_certificates 0 fresh)
load_chain-places_example =
    load_chain-places working working-Succeeds all_known (λ s. s) all_known-Decodes 60
      two_certificates (behind_first two_certificates) 0 fresh (unfold advance in refl)
      (omega arith)

load_chain-Ends_example : Ends {C = Unit {0}} (load_chain silent none_known 60 two_certificates 0)
load_chain-Ends_example = load_chain-Ends silent none_known 60 two_certificates 0 (omega arith)

do_http_request_with_keys_releases_example :
    Balanced store []
      (do_http_request_with_keys silent all_known plain_handlers 1 1 config pair []
        nothing_received).history
unfolding c_str equal
do_http_request_with_keys_releases_example =
    do_http_request_with_keys_releases silent all_known plain_handlers 1 1 config pair []
      nothing_received 12002 store refl refl (unfold do_http_request_with_keys in refl)

-- A store with two certificates.
abbrev two_listed : WinCrypt
two_listed = record all_known { lists = λ h. ltb (listings h) 2 }

clear_store-Deletes_example :
    Deletes working two_listed 1 fresh (clear_store working two_listed 2 fresh)
clear_store-Deletes_example =
    clear_store-Deletes working two_listed working-Succeeds 2 (record { listed = λ h. refl }) 2 1
      fresh refl (omega arith)

-- The decoded text is held.
abbrev holding : WinState (Unit {0})
holding = record {
  pointers = assigned decoded all_null;
  history = acquired decoded ∷ [];
  context = tt;
}

load_chain_frees_twice_example :
    let end =
      finish clear
        ((load_chain working none_known 2 two_certificates 0 >>= λ _. proceed 0) holding) in
    (end.outcome ≡ some (ok 13))
    × (released_count decoded end.history ≡ suc (acquired_count decoded end.history))
load_chain_frees_twice_example =
    load_chain_frees_twice working none_known (proceed 0) 1 two_certificates
      (behind_first two_certificates) (begin_certificate ++ b'b' ∷ []) 0 13 holding refl refl
      (unfold advance in refl) (unfold strstr in refl) refl
