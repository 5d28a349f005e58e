-- ===== src/Ddi/Feedback.antt =====
-- `fillResponseDocument`, `formatFeedbackPath` and `formatDownloadPath` of
-- ddi/src/ddi_client_impl.cpp: what the client sends, as a JSON document, and where to.
pub mod Config
pub mod Reads
use up2date_cpp.Base.{Bool, Option, none, some, List, [], ◌∷◌, ◌++◌, ◌==◌, if◌then◌else◌}
use up2date_cpp.Base.Int.{ℤ, pos, negsuc}
use up2date_cpp.Text.{Text, codes}
use up2date_cpp.Text.Scan.{to_string}
use up2date_cpp.Outcome.{Result, ok, throw, fault, wrong_response, out_of_bounds, ◌>>=◌}
use up2date_cpp.Multimap.{Multimap}
use up2date_cpp.Uri.{Uri, has_query}
use up2date_cpp.Json.{RapidJson}
use up2date_cpp.Ddi.Response.{
  Response, ConfigResponse, finished_to_string, execution_to_string, mode_to_string,
}

module _ (json : RapidJson) where
  -- The loop of `PushBack` calls.
  unfoldable pub push_details : json.Value → List Text → json.Value
  push_details array [] = array
  push_details array (t ∷ ts) = push_details (json.push_back array (json.string t)) ts

  unfoldable pub status_object : Response → json.Value
  unfolding push_details finished_to_string execution_to_string
  status_object r =
      let result =
        json.add_member json.empty_object (codes "finished")
          (json.string (finished_to_string r.finished)) in
      let status₁ = json.add_member json.empty_object (codes "result") result in
      let status₂ =
        json.add_member status₁ (codes "execution")
          (json.string (execution_to_string r.execution)) in
      json.add_member status₂ (codes "details") (push_details json.empty_array r.details)

  -- `if (actionId >= 0)`
  unfoldable pub add_action_id : json.Value → ℤ → json.Value
  unfolding to_string
  add_action_id document (pos n) =
      json.add_member document (codes "id") (json.string (to_string (pos n)))
  add_action_id document (negsuc n) = document

  -- `fillResponseDocument`; the response is a pointer.
  unfoldable pub fill_response_document : Option Response → json.Value → ℤ → Result json.Value
  unfolding status_object add_action_id
  fill_response_document none document action_id = throw wrong_response
  fill_response_document (some r) document action_id =
      ok (add_action_id (json.add_member document (codes "status") (status_object r)) action_id)

  -- The loop of `AddMember` calls over the config data.
  unfoldable pub add_data_members : json.Value → Multimap → json.Value
  add_data_members o [] = o
  add_data_members o ((k, v) ∷ m) = add_data_members (json.add_member o k (json.string v)) m

  -- The members "data" and "mode" of a config answer.
  unfoldable pub config_document : ConfigResponse → json.Value
  unfolding add_data_members mode_to_string
  config_document req =
      let document =
        json.add_member json.empty_object (codes "data")
          (add_data_members json.empty_object req.data_map) in
      json.add_member document (codes "mode") (json.string (mode_to_string req.mode))

-- `path[path.length() - 1] != '/'`, which reads outside an empty path.
unfoldable pub ends_with_slash : Text → Result Bool
ends_with_slash [] = fault out_of_bounds
ends_with_slash (c ∷ []) = ok (c == b'/')
ends_with_slash (c ∷ d ∷ s) = ends_with_slash (d ∷ s)

-- `formatFeedbackPath`
unfoldable pub format_feedback_path : Uri → Result Text
unfolding ends_with_slash
format_feedback_path u = do
  slash ← ends_with_slash u.path
  ok (if slash then u.path ++ codes "feedback" else u.path ++ codes "/feedback")

-- `formatDownloadPath`
unfoldable pub format_download_path : Uri → Text
unfolding has_query
format_download_path u = if has_query u then u.path ++ (codes "?" ++ u.query) else u.path
