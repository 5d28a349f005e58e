-- ===== src/Ddi/Payload/Cancel/Ids.antt =====
-- The ids of an action to cancel.
use up2date_cpp.Base.{ℕ, ◌<◌, ◌≡◌, refl, some}
use up2date_cpp.Base.Int.{pos, int_limit, fits_int_of_lt}
use up2date_cpp.Text.{Text, codes, c_str}
use up2date_cpp.Text.Scan.{to_string}
use up2date_cpp.Text.Printed.{c_str-to_string, scan_int-to_string}
use up2date_cpp.Outcome.{ok}
use up2date_cpp.Json.{RapidJson, has_member, member, text_member}
use up2date_cpp.Ddi.Payload.{stoi, parse_document}
use up2date_cpp.Ddi.Payload.Cancel.{cancel_action_from_string}

-- A number that `std::to_string` printed is read back by `std::stoi`.
pub stoi-to_string : (n : ℕ) → n < int_limit → stoi (to_string (pos n)) ≡ ok (pos n)
unfolding stoi
stoi-to_string n h = rw (scan_int-to_string n) (rw (fits_int_of_lt n h))

module _ (json : RapidJson) where
  -- A body that parses to a document with the decimal text of `i` under "id" and that of `j` under
  -- "cancelAction"/"stopId" is read as these two numbers, if both are below 2^31.
  pub cancel_action_ids :
      (body : Text) (document action v w : json.Value) (i j : ℕ)
      → json.parse (c_str body) ≡ some document
      → json.find_member document (codes "id") ≡ some (some v)
      → json.find_member document (codes "cancelAction") ≡ some (some action)
      → json.find_member action (codes "stopId") ≡ some (some w)
      → json.get_string v ≡ some (to_string (pos i))
      → json.get_string w ≡ some (to_string (pos j))
      → i < int_limit
      → j < int_limit
      → cancel_action_from_string json body ≡ ok (record { id = pos i; stop_id = pos j })
  unfolding cancel_action_from_string parse_document has_member member text_member
  cancel_action_ids body document action v w i j p q r s t u hi hj = rw p (
      rw q (
        rw r (
          rw s (
            rw u (
              rw (c_str-to_string j) (
                rw (stoi-to_string j hj)
                  (rw t (rw (c_str-to_string i) (rw (stoi-to_string i hi) refl)))))))))
