-- ===== src/Tests/Certificates.antt =====
-- Theorems about the Unix client, with a concrete reader of certificates.
use up2date_cpp.Base.{◌<◌, ◌≡◌, refl, Option, none, some, List, [], ◌∷◌, length, arith}
use up2date_cpp.Text.{Text, codes, c_str}
use up2date_cpp.Outcome.{ok}
use up2date_cpp.Ddi.Session.Requests.{reply}
use up2date_cpp.Unix.{OpenSsl, Consumes, load_key_pair, to_http_lib_result}
use up2date_cpp.Unix.Chain.{Certificates, load_key_pair_lem}

-- Every byte is a certificate.
abbrev read_byte : Text → Option Text × Text
read_byte [] = (none, [])
read_byte (c ∷ s) = (some (c ∷ []), s)

abbrev pub bytes : OpenSsl
bytes = record { Certificate = Text; Key = Text; read_x509 = read_byte; read_private_key = some }

read_byte_shorter :
    (t rest : Text) (c : Text) → read_byte t ≡ (some c, rest) → length rest < length t
read_byte_shorter [] rest c h = ground arith
read_byte_shorter (x ∷ t) rest c h = ground arith

bytes-Consumes : Consumes bytes
bytes-Consumes = record { shorter = read_byte_shorter }

chain_example :
    (chain : List Text) × (load_key_pair bytes (codes "abc") (codes "k")
      ≡ some (record {
        certificate = (read_byte (c_str (codes "abc"))).0;
        key = some (c_str (codes "k"));
        chain = chain;
      }))
    × Certificates bytes (read_byte (c_str (codes "abc"))).1 chain
chain_example = load_key_pair_lem bytes bytes-Consumes (codes "abc") (codes "k")

passed : to_http_lib_result (reply 200 []) ≡ ok (reply 200 [])
unfolding to_http_lib_result
passed = refl
