-- ===== src/Ddi/Builder/Build.antt =====
-- What a built client carries.
use mathlib.Core.Path.{subst}
use up2date_cpp.Base.{◌≡◌, refl, false, arith, if◌then◌else◌}
use up2date_cpp.Text.{is_empty}
use up2date_cpp.Outcome.{ok, bind-eq-ok, ok-injective}
use up2date_cpp.Multimap.{IsSorted}
use up2date_cpp.Ddi.State.{Client, set_endpoint}
use up2date_cpp.Ddi.State.Credentials.{
  IsExclusive, set_tls-IsExclusive, set_device_token-IsExclusive, set_gateway_token-IsExclusive,
}
use up2date_cpp.Ddi.Builder.{
  AuthVariant, not_set, gateway_token, device_token, m_tls_keypair, Builder, configured, authorized,
  build,
}

-- A client with no key pair and headers in order has exclusive credentials.
configured-IsExclusive :
    (b : Builder) (c : Client)
    → IsSorted b.default_headers
    → c.tls.is_set ≡ false
    → IsExclusive (configured b c)
unfolding configured
configured-IsExclusive b c sorted off = record { sorted = sorted; exclusive = λ on. cc }

authorized-IsExclusive :
    (v : AuthVariant) (b : Builder) (c : Client) → IsExclusive c → IsExclusive (authorized v b c)
unfolding authorized
authorized-IsExclusive m_tls_keypair b c h = set_tls-IsExclusive b.crt b.key c h
authorized-IsExclusive gateway_token b c h = set_gateway_token-IsExclusive b.token c h
authorized-IsExclusive device_token b c h = set_device_token-IsExclusive b.token c h
authorized-IsExclusive not_set b c h = h

blank_or_endpoint :
    (b : Builder) (c : Client) (blank : Client)
    → blank.tls.is_set ≡ false
    → (if is_empty b.hawkbit_uri then ok blank else set_endpoint b.hawkbit_uri blank) ≡ ok c
    → c.tls.is_set ≡ false
unfolding set_endpoint
blank_or_endpoint b c blank off h = ground arith

-- A client that the builder made has exclusive credentials, for whatever calls made the builder, if
-- its headers are in key order, as `addHeader` keeps them.
pub build-IsExclusive :
    (b : Builder) (c : Client) → IsSorted b.default_headers → build b ≡ ok c → IsExclusive c
unfolding build
build-IsExclusive b c sorted built =
    let (start, made, done) = bind-eq-ok _ _ built in
    subst IsExclusive (ok-injective done) (
      authorized-IsExclusive b.auth_variant b _
        (configured-IsExclusive b start sorted (blank_or_endpoint b start _ refl made)))
