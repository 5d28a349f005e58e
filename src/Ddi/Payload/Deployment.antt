-- ===== src/Ddi/Payload/Deployment.antt =====
-- `DeploymentBase_::from`: the deployment, its chunks and their artifacts.
pub mod Chunks
pub mod Reads
use up2date_cpp.Base.{Bool, true, false, not, List}
use up2date_cpp.Base.Int.{ℤ}
use up2date_cpp.Text.{Text, codes, equal}
use up2date_cpp.Outcome.{Result, ok, asserted, ◌>>=◌, ◌>>◌}
use up2date_cpp.Uri.{Uri}
use up2date_cpp.Json.{RapidJson, has_member, member, text_member}
use up2date_cpp.Ddi.Payload.{require, stoi, each, parse_document, parse_href_object}

-- `struct Hashes`
pub record Hashes : Type 0 where
  pub sha1 : Text
  pub md5 : Text
  pub sha256 : Text

-- `class Artifact_`; its `downloadProvider` is the client that parsed it.
pub record Artifact : Type 0 where
  pub filename : Text
  pub file_hash : Hashes
  pub file_size : ℤ
  pub download_uri : Uri

-- `class Chunk_`
pub record Chunk : Type 0 where
  pub part : Text
  pub version : Text
  pub name : Text
  pub artifacts : List Artifact

-- `class DeploymentBase_`
pub record DeploymentBase : Type 0 where
  pub id : ℤ
  pub download_type : Text
  pub update_type : Text
  pub in_maintenance_window : Bool
  pub chunks : List Chunk

module _ (json : RapidJson) where
  link_name : Bool → json.Value → Result Text
  link_name true links = ok (codes "download")
  link_name false links = do
    require (has_member json links (codes "download-http"))
    ok (codes "download-http")

  -- The link `download` if there is one, else `download-http`, which must be there.
  unfoldable pub download_link : json.Value → Result Text
  unfolding link_name
  download_link links = do
    download ← has_member json links (codes "download")
    link_name download links

  unfoldable pub read_hashes : json.Value → Result Hashes
  read_hashes hashes = do
    md5 ← text_member json hashes (codes "md5")
    sha1 ← text_member json hashes (codes "sha1")
    sha256 ← text_member json hashes (codes "sha256")
    ok (record { sha1 = sha1; md5 = md5; sha256 = sha256 })

  unfoldable pub read_artifact : json.Value → Result Artifact
  read_artifact artifact = do
    require (has_member json artifact (codes "filename"))
    require (has_member json artifact (codes "hashes"))
    require (has_member json artifact (codes "size"))
    require (has_member json artifact (codes "_links"))
    hashes ← member json artifact (codes "hashes")
    require (has_member json hashes (codes "sha256"))
    require (has_member json hashes (codes "sha1"))
    require (has_member json hashes (codes "md5"))
    links ← member json artifact (codes "_links")
    name ← download_link links
    filename ← text_member json artifact (codes "filename")
    size ← member json artifact (codes "size")
    file_size ← asserted (json.get_int size)
    link ← member json links name
    download_uri ← parse_href_object json link
    file_hash ← read_hashes hashes
    ok (record {
      filename = filename;
      file_hash = file_hash;
      file_size = file_size;
      download_uri = download_uri;
    })

  unfoldable pub read_chunk : json.Value → Result Chunk
  read_chunk chunk = do
    require (has_member json chunk (codes "part"))
    require (has_member json chunk (codes "version"))
    require (has_member json chunk (codes "name"))
    require (has_member json chunk (codes "artifacts"))
    name ← text_member json chunk (codes "name")
    version ← text_member json chunk (codes "version")
    part ← text_member json chunk (codes "part")
    array ← member json chunk (codes "artifacts")
    elements ← asserted (json.elements array)
    artifacts ← each read_artifact elements
    ok (record { part = part; version = version; name = name; artifacts = artifacts })

  window_open : Bool → json.Value → Result Bool
  window_open false deployment = ok true
  window_open true deployment = do
    window ← text_member json deployment (codes "maintenanceWindow")
    ok (not (equal window (codes "unavailable")))

  -- In the window unless `maintenanceWindow` says "unavailable".
  unfoldable pub read_maintenance_window : json.Value → Result Bool
  unfolding window_open
  read_maintenance_window deployment = do
    given ← has_member json deployment (codes "maintenanceWindow")
    window_open given deployment

  unfoldable pub deployment_base_from : Text → Result DeploymentBase
  deployment_base_from body = do
    document ← parse_document json body
    require (has_member json document (codes "id"))
    require (has_member json document (codes "deployment"))
    deployment ← member json document (codes "deployment")
    require (has_member json deployment (codes "update"))
    require (has_member json deployment (codes "download"))
    require (has_member json deployment (codes "chunks"))
    id_text ← text_member json document (codes "id")
    id ← stoi id_text
    update_type ← text_member json deployment (codes "update")
    download_type ← text_member json deployment (codes "download")
    in_window ← read_maintenance_window deployment
    array ← member json deployment (codes "chunks")
    elements ← asserted (json.elements array)
    chunks ← each read_chunk elements
    ok (record {
      id = id;
      download_type = download_type;
      update_type = update_type;
      in_maintenance_window = in_window;
      chunks = chunks;
    })
