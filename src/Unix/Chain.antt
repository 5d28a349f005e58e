-- ===== src/Unix/Chain.antt =====
-- The certificates that the loop of the Unix client collects.
use up2date_cpp.Base.{
  ℕ, zero, suc, ◌<◌, ◌≡◌, refl, Option, none, some, List, [], ◌∷◌, length, arith,
}
use up2date_cpp.Text.{Text, c_str}
use up2date_cpp.Unix.{OpenSsl, Consumes, load_chain, load_key_pair}

module _ (ssl : OpenSsl) where
  -- The certificates that stand in a text one after the other, up to the first place where none
  -- can be read.
  pub data Certificates : Text → List ssl.Certificate → Type 0 where
    no_more : (t rest : Text) → ssl.read_x509 t ≡ (none, rest) → Certificates t []
    one_more :
        (t rest : Text) (c : ssl.Certificate) (cs : List ssl.Certificate)
        → ssl.read_x509 t ≡ (some c, rest)
        → Certificates rest cs
        → Certificates t (c ∷ cs)

  -- A loop that ended has collected the certificates of its text.
  pub record Collects (fuel : ℕ) (t : Text) : Type 0 where
    pub chain : List ssl.Certificate
    pub loaded : load_chain ssl fuel t ≡ some chain
    pub collected : Certificates t chain

  module _ (laws : Consumes ssl) where
    Collects-step :
        (fuel : ℕ) (t : Text) (answer : Option ssl.Certificate × Text)
        → length t < suc fuel
        → ssl.read_x509 t ≡ answer
        → ((rest : Text) → length rest < fuel → Collects fuel rest)
        → Collects (suc fuel) t
    Collects-step fuel t (none, rest) h e ih = record {
      chain = [];
      loaded = unfold load_chain in rw e refl;
      collected = no_more t rest e;
    }
    Collects-step fuel t (some c, rest) h e ih =
        let later = ih rest (omega (arith, h, laws.shorter t rest c e)) in
        record {
          chain = c ∷ later.chain;
          loaded = unfold load_chain in rw e (rw later.loaded refl);
          collected = one_more t rest c later.chain e later.collected;
        }

    load_chain-Collects : (fuel : ℕ) (t : Text) → length t < fuel → Collects fuel t
    load_chain-Collects zero t h = absurd (omega (arith, h))
    load_chain-Collects (suc fuel) t h =
        Collects-step fuel t (ssl.read_x509 t) h refl (load_chain-Collects fuel)

    -- If reading a certificate takes some of the text, loading a key pair always ends: the chain
    -- has the certificates that stand behind the first one, in order and all up to the first place
    -- where none can be read, and the first certificate and the key are what OpenSSL reads.
    pub load_key_pair_lem :
        (crt key : Text)
        → (chain : List ssl.Certificate) × (load_key_pair ssl crt key
            ≡ some (record {
              certificate = (ssl.read_x509 (c_str crt)).0;
              key = ssl.read_private_key (c_str key);
              chain = chain;
            }))
          × Certificates (ssl.read_x509 (c_str crt)).1 chain
    unfolding load_key_pair
    load_key_pair_lem crt key =
        let rest = (ssl.read_x509 (c_str crt)).1 in
        let all = load_chain-Collects (suc (length rest)) rest (omega arith) in
        (all.chain, rw all.loaded refl, all.collected)
