-- ===== src/Ddi/Payload/Cancel.antt =====
-- `CancelAction_::fromString`: the action to cancel.
pub mod Ids
use up2date_cpp.Base.Int.{ℤ}
use up2date_cpp.Text.{Text, codes}
use up2date_cpp.Outcome.{Result, ok, ◌>>=◌, ◌>>◌}
use up2date_cpp.Json.{RapidJson, has_member, member, text_member}
use up2date_cpp.Ddi.Payload.{require, stoi, parse_document}

-- `class CancelAction_`
pub record CancelAction : Type 0 where
  pub id : ℤ
  pub stop_id : ℤ

module _ (json : RapidJson) where
  unfoldable pub cancel_action_from_string : Text → Result CancelAction
  cancel_action_from_string body = do
    document ← parse_document json body
    require (has_member json document (codes "id"))
    require (has_member json document (codes "cancelAction"))
    action ← member json document (codes "cancelAction")
    require (has_member json action (codes "stopId"))
    stop_text ← text_member json action (codes "stopId")
    stop_id ← stoi stop_text
    id_text ← text_member json document (codes "id")
    id ← stoi id_text
    ok (record { id = id; stop_id = stop_id })
