-- ===== src/Ddi/Endpoint.antt =====
-- ddi/src/utils.cpp: the endpoint of a controller.
use up2date_cpp.Base.{◌≡◌, ◌≢◌, refl, ap, ◌∙◌, none, some, [], ◌++◌, append-nil, arith}
use up2date_cpp.Text.{Text, codes, Every, Every-append}
use up2date_cpp.Outcome.{Result, ok, ◌>>=◌}
use up2date_cpp.Uri.{Uri, from_string}
use up2date_cpp.Uri.Match.{is_path_char}
use up2date_cpp.Uri.Compose.{Parts, compose, uri_of, from_string-compose}
use up2date_cpp.Uri.Sound.{from_string_chars}

-- The path of a controller's endpoint.
abbrev pub controller_path : Text → Text → Text
controller_path controller tenant = codes "/" ++ (tenant ++ (codes "/controller/v1/" ++ controller))

-- `hawkbitEndpointFrom`
unfoldable pub hawkbit_endpoint_from : Text → Text → Text → Result Text
hawkbit_endpoint_from endpoint controller tenant = do
  u ← from_string endpoint
  ok (u.scheme ++ (codes "://" ++ (u.authority ++ controller_path controller tenant)))

abbrev parts_of : Uri → Text → Parts
parts_of u path = record {
  scheme = some u.scheme;
  authority = u.authority;
  path = path;
  query = none;
  fragment = none;
}

composed_lem :
    (u : Uri) (path : Text)
    → u.scheme ++ (codes "://" ++ (u.authority ++ path)) ≡ compose (parts_of u path)
unfolding compose
composed_lem u path = simp append-nil

uri_of_lem :
    (u : Uri) (path : Text)
    → ok (uri_of (parts_of u path)) ≡ ok (record u { path = path; query = []; fragment = [] })
unfolding uri_of
uri_of_lem u path = refl

slashes_ok : Every is_path_char (codes "/controller/v1/")
slashes_ok = ground arith

-- The endpoint built from an accepted URI with a scheme, and from a controller and a tenant that
-- hold neither `?` nor `#`, is accepted as a URI again: with the scheme and the authority of the
-- first, the path of the controller in place of its path, and neither query nor fragment.
pub from_string-hawkbit_endpoint_from :
    (endpoint controller tenant : Text) (u : Uri)
    → from_string endpoint ≡ ok u
    → u.scheme ≢ []
    → Every is_path_char controller
    → Every is_path_char tenant
    → (hawkbit_endpoint_from endpoint controller tenant >>= from_string)
      ≡ ok (record {
        scheme = u.scheme;
        authority = u.authority;
        path = controller_path controller tenant;
        query = [];
        fragment = [];
      })
unfolding hawkbit_endpoint_from
from_string-hawkbit_endpoint_from endpoint controller tenant u h has_scheme hc ht =
    let (scheme_ok, authority_ok) = from_string_chars endpoint u h in
    let path_ok =
      Every-append is_path_char (codes "/") _ (refl, tt)
        (Every-append is_path_char tenant _ ht
          (Every-append is_path_char (codes "/controller/v1/") controller slashes_ok hc)) in
    rw (h, ◌>>=◌)
      (ap from_string (composed_lem u (controller_path controller tenant))
        ∙ from_string-compose (parts_of u (controller_path controller tenant)) (record {
          scheme_ok = scheme_ok has_scheme;
          authority_ok = authority_ok;
          path_ok = path_ok;
          path_stops = refl;
          query_ok = tt;
          fragment_ok = tt;
        })
        ∙ uri_of_lem u (controller_path controller tenant))
