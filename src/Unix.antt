-- ===== src/Unix.antt =====
-- modules/src/unix/httpclient_impl.cpp: what the Unix client makes of a result of cpp-httplib, and
-- how it loads a key pair with OpenSSL.
pub mod Agrees
pub mod Chain
pub mod Client
pub mod Results
use up2date_cpp.Base.{
  ℕ, zero, suc, ◌<◌, ◌≡◌, true, false, Option, none, some, List, [], ◌∷◌, length, if◌then◌else◌,
}
use up2date_cpp.Text.{Text, c_str}
use up2date_cpp.Outcome.{HttpError, Result, ok, fault, is_success, ◌>>=◌}
use up2date_cpp.Ddi.Session.Monad.{Reply, HttpResult, dereferenced}

-- `PEM_read_bio_X509` and `PEM_read_bio_PrivateKey` on what is left in a memory BIO, which they
-- consume, also where there is nothing that they can read.
pub record OpenSsl : Type 1 where
  pub Certificate : Type 0
  pub Key : Type 0
  pub read_x509 : Text → Option Certificate × Text
  pub read_private_key : Text → Option Key

-- A certificate that is read takes some of the text.
pub record Consumes (ssl : OpenSsl) : Type 0 where
  pub shorter :
      (t rest : Text) (c : ssl.Certificate)
      → ssl.read_x509 t ≡ (some c, rest)
      → length rest < length t

abbrev with_response : HttpError → Reply → HttpResult
with_response e response = record { response = some response; error = e }

-- `toHttpLibResult`: the response is read only where there is no error.
unfoldable pub to_http_lib_result : HttpResult → Result HttpResult
to_http_lib_result r =
    if is_success r.error
    then (dereferenced r.response >>= λ response. ok (with_response r.error response))
    else ok (record { response = none; error = r.error })

module _ (ssl : OpenSsl) where
  -- `if (!chainCert) break; chainCerts.push_back(chainCert);`
  abbrev push_first :
      Option ssl.Certificate → Option (List ssl.Certificate) → Option (List ssl.Certificate)
  push_first none later = some []
  push_first (some c) none = none
  push_first (some c) (some l) = some (c ∷ l)

  -- The `while (true)` loop; `none` means that the fuel ran out.
  unfoldable pub load_chain : ℕ → Text → Option (List ssl.Certificate)
  load_chain zero t = none
  load_chain (suc fuel) t =
      let (first, rest) = ssl.read_x509 t in push_first first (load_chain fuel rest)

  -- What the constructor hands to cpp-httplib; a null pointer is `none`.
  pub record Loaded : Type 0 where
    pub certificate : Option ssl.Certificate
    pub key : Option ssl.Key
    pub chain : List ssl.Certificate

  abbrev loaded_with :
      Option ssl.Certificate → Option ssl.Key → Option (List ssl.Certificate) → Option Loaded
  loaded_with first key none = none
  loaded_with first key (some chain) =
      some (record { certificate = first; key = key; chain = chain })

  -- `Client::Client(endpoint, mTLSKeyPair)`
  unfoldable pub load_key_pair : Text → Text → Option Loaded
  unfolding load_chain
  load_key_pair crt key =
      let (first, rest) = ssl.read_x509 (c_str crt) in
      loaded_with first (ssl.read_private_key (c_str key)) (load_chain (suc (length rest)) rest)
