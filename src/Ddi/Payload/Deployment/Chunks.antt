-- ===== src/Ddi/Payload/Deployment/Chunks.antt =====
-- The chunks and artifacts of a deployment against the arrays that they are read from.
use up2date_cpp.Base.{◌≡◌, refl, ◌⊎◌, inl, inr, Option, none, some, List, [], ◌∷◌, arith}
use up2date_cpp.Text.{Text, codes, c_str}
use up2date_cpp.Outcome.{Result, ok}
use up2date_cpp.Json.{RapidJson, has_member, member}
use up2date_cpp.Ddi.Payload.{each, parse_document, parse_href_object}
use up2date_cpp.Ddi.Payload.Deployment.{
  Artifact, DeploymentBase, download_link, read_artifact, read_chunk, deployment_base_from,
}

-- The second list is what the function makes of the first, element by element and in order.
abbrev pub Matches : {A B : Type 0} → (A → Result B) → List A → List B → Type 0
Matches f [] [] = Unit
Matches f (x ∷ xs) (y ∷ ys) = (f x ≡ ok y) × Matches f xs ys
Matches f _ _ = ⊥

each-Matches :
    {A B : Type 0} (f : A → Result B) (xs : List A) (ys : List B)
    → each f xs ≡ ok ys
    → Matches f xs ys
unfolding each
each-Matches f [] [] h = tt
each-Matches f [] (y ∷ ys) h = cc
each-Matches f (x ∷ xs) [] h = ground arith
each-Matches f (x ∷ xs) (y ∷ ys) h = ground (arith, each-Matches f xs ys)

module _ (json : RapidJson) where
  chunks_read :
      (body : Text) (document deployment array : json.Value) (vs : List json.Value)
      (d : DeploymentBase)
      → deployment_base_from json body ≡ ok d
      → json.parse (c_str body) ≡ some document
      → json.find_member document (codes "deployment") ≡ some (some deployment)
      → json.find_member deployment (codes "chunks") ≡ some (some array)
      → json.elements array ≡ some vs
      → each (read_chunk json) vs ≡ ok d.chunks
  unfolding deployment_base_from parse_document has_member member
  chunks_read body document deployment array vs d h p q r e = ground arith

  -- A deployment that was read from a body, whose parsed document holds "deployment" with the
  -- array "chunks" in it, has one chunk for each element of that array, in order, each read from
  -- its element.
  pub deployment_chunks :
      (body : Text) (document deployment array : json.Value) (vs : List json.Value)
      (d : DeploymentBase)
      → deployment_base_from json body ≡ ok d
      → json.parse (c_str body) ≡ some document
      → json.find_member document (codes "deployment") ≡ some (some deployment)
      → json.find_member deployment (codes "chunks") ≡ some (some array)
      → json.elements array ≡ some vs
      → Matches (read_chunk json) vs d.chunks
  deployment_chunks body document deployment array vs d h p q r e =
      each-Matches (read_chunk json) vs d.chunks
        (chunks_read body document deployment array vs d h p q r e)

  -- An artifact that was read from an object with "_links" is downloaded from its link "download",
  -- or, only if there is none, from its link "download-http".
  pub artifact_link :
      (v links : json.Value) (a : Artifact) (download http : Option json.Value)
      → read_artifact json v ≡ ok a
      → json.find_member v (codes "_links") ≡ some (some links)
      → json.find_member links (codes "download") ≡ some download
      → json.find_member links (codes "download-http") ≡ some http
      → (link : json.Value) × ((download ≡ some link) ⊎ ((download ≡ none) × (http ≡ some link)))
        × (parse_href_object json link ≡ ok a.download_uri)
  unfolding read_artifact download_link has_member member
  artifact_link v links a (some l) http h p q r = (l, inl refl, ground arith)
  artifact_link v links a none (some l) h p q r = (l, inr (refl, refl), ground arith)
  artifact_link v links a none none h p q r = absurd (ground arith)
