-- ===== src/Ddi/Payload/Deployment/Reads.antt =====
-- What a well-formed deployment is read as.
use up2date_cpp.Base.{ℕ, ◌<◌, ◌≡◌, refl, true, none, some, List}
use up2date_cpp.Base.Int.{pos, int_limit}
use up2date_cpp.Text.{Text, codes, c_str}
use up2date_cpp.Text.Scan.{to_string}
use up2date_cpp.Text.Printed.{c_str-to_string}
use up2date_cpp.Outcome.{ok, ◌>>=◌}
use up2date_cpp.Json.{RapidJson, has_member, member, text_member}
use up2date_cpp.Ddi.Payload.{each, parse_document}
use up2date_cpp.Ddi.Payload.Cancel.Ids.{stoi-to_string}
use up2date_cpp.Ddi.Payload.Deployment.{read_chunk, read_maintenance_window, deployment_base_from}

module _ (json : RapidJson) where
  -- What the library finds in the document of a deployment: its parts in the order in which the
  -- protocol lists them, with no maintenance window.
  pub record Deploys (body : Text) (n : ℕ) (update download : Text) (chunks : List json.Value)
      : Type 0 where
    pub document : json.Value
    pub deployment : json.Value
    pub id_value : json.Value
    pub update_value : json.Value
    pub download_value : json.Value
    pub array : json.Value
    pub parsed : json.parse (c_str body) ≡ some document
    pub id_found : json.find_member document (codes "id") ≡ some (some id_value)
    pub id_text : json.get_string id_value ≡ some (to_string (pos n))
    pub deployment_found : json.find_member document (codes "deployment") ≡ some (some deployment)
    pub update_found : json.find_member deployment (codes "update") ≡ some (some update_value)
    pub update_text : json.get_string update_value ≡ some update
    pub download_found : json.find_member deployment (codes "download") ≡ some (some download_value)
    pub download_text : json.get_string download_value ≡ some download
    pub window_found : json.find_member deployment (codes "maintenanceWindow") ≡ some none
    pub array_found : json.find_member deployment (codes "chunks") ≡ some (some array)
    pub elements : json.elements array ≡ some chunks

  -- A deployment with an id below 2^31, with update, download and chunks, and with no maintenance
  -- window, is read as these, in the window; whether it is read is decided by its chunks alone.
  pub deployment_base_from-Deploys :
      (body : Text) (n : ℕ) (update download : Text) (vs : List json.Value)
      → Deploys body n update download vs
      → n < int_limit
      → deployment_base_from json body ≡ (
          each (read_chunk json) vs >>= λ chunks. ok (record {
            id = pos n;
            download_type = c_str download;
            update_type = c_str update;
            in_maintenance_window = true;
            chunks = chunks;
          }))
  unfolding deployment_base_from parse_document has_member member text_member
      read_maintenance_window
  deployment_base_from-Deploys body n update download vs d fit = rw d.parsed (
      rw d.id_found (
        rw d.deployment_found (
          rw d.update_found (
            rw d.download_found (
              rw d.array_found (
                rw d.id_text (
                  rw (c_str-to_string n) (
                    rw (stoi-to_string n fit) (
                      rw d.update_text
                        (rw d.download_text (rw d.window_found (rw d.elements refl))))))))))))
