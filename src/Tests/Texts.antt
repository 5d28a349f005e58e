-- ===== src/Tests/Texts.antt =====
-- Theorems about texts, at concrete texts.
use up2date_cpp.Base.{◌+◌, ◌*◌, ◌≡◌, refl, none, some, [], arith}
use up2date_cpp.Base.Int.{pos}
use up2date_cpp.Text.{codes}
use up2date_cpp.Outcome.{ok, ◌>>=◌}
use up2date_cpp.Uri.{Uri, from_string}
use up2date_cpp.Uri.Compose.{Parts, IsWellFormed, compose, uri_of, from_string-compose}
use up2date_cpp.Uri.Sound.{from_string-eq-ok}
use up2date_cpp.Ddi.Endpoint.{
  controller_path, hawkbit_endpoint_from, from_string-hawkbit_endpoint_from,
}
use up2date_cpp.Ddi.Payload.Polling.{sleep_milliseconds}
use up2date_cpp.Ddi.Payload.Polling.Sleep.{show_time, sleep_milliseconds-show_time}

-- https://h/p#f
abbrev parts : Parts
parts = record {
  scheme = some (codes "https");
  authority = codes "h";
  path = codes "/p";
  query = none;
  fragment = some (codes "f");
}

parts-IsWellFormed : IsWellFormed parts
parts-IsWellFormed = record {
  scheme_ok = (λ e. cc, ground arith);
  authority_ok = ground arith;
  path_ok = ground arith;
  path_stops = refl;
  query_ok = tt;
  fragment_ok = ground arith;
}

from_string-compose_example : from_string (compose parts) ≡ ok (uri_of parts)
from_string-compose_example = from_string-compose parts parts-IsWellFormed

abbrev endpoint : Uri
endpoint = record {
  scheme = codes "https";
  authority = codes "h";
  path = codes "/p";
  query = codes "q";
  fragment = [];
}

endpoint_read : from_string (codes "https://h/p?q") ≡ ok endpoint
unfolding from_string
endpoint_read = refl

endpoint_example :
    (hawkbit_endpoint_from (codes "https://h/p?q") (codes "dev") (codes "acme") >>= from_string)
    ≡ ok (record {
      scheme = codes "https";
      authority = codes "h";
      path = controller_path (codes "dev") (codes "acme");
      query = [];
      fragment = [];
    })
endpoint_example =
    from_string-hawkbit_endpoint_from (codes "https://h/p?q") (codes "dev") (codes "acme") endpoint
      endpoint_read (λ e. cc) (ground arith) (ground arith)

show_time_example : sleep_milliseconds (show_time 1 2 3) ≡ ok (pos ((1 * 3600 + 2 * 60 + 3) * 1000))
show_time_example = sleep_milliseconds-show_time 1 2 3 (omega arith)

from_string-eq-ok_example :
    (p : Parts) × (codes "https://h/p?q" ≡ compose p) × IsWellFormed p × (endpoint ≡ uri_of p)
from_string-eq-ok_example = from_string-eq-ok (codes "https://h/p?q") endpoint endpoint_read
