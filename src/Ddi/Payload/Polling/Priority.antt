-- ===== src/Ddi/Payload/Polling/Priority.antt =====
-- Which link of a poll's answer is followed.
use up2date_cpp.Base.{◌≡◌, Option, none, some}
use up2date_cpp.Base.Int.{ℤ}
use up2date_cpp.Text.{codes}
use up2date_cpp.Outcome.{Result, ok, ◌>>=◌}
use up2date_cpp.Uri.{no_uri}
use up2date_cpp.Json.{RapidJson, has_member, member}
use up2date_cpp.Ddi.Payload.{parse_href_object}
use up2date_cpp.Ddi.Payload.Polling.{
  Action, get_config_data, cancel_action, deployment_base, no_action, PollingData, choose_action,
}

module _ (json : RapidJson) where
  -- The first of the three links that is there.
  abbrev pub first_link :
      Option json.Value → Option json.Value → Option json.Value → Option (Action × json.Value)
  first_link (some link) cancel deployment = some (get_config_data, link)
  first_link none (some link) deployment = some (cancel_action, link)
  first_link none none (some link) = some (deployment_base, link)
  first_link none none none = none

  -- A link is followed by its `href`; with no link there is nothing to do.
  abbrev pub followed : ℤ → Option (Action × json.Value) → Result PollingData
  followed sleep none = ok (record { sleep_time = sleep; action = no_action; follow_uri = no_uri })
  followed sleep (some (action, link)) = parse_href_object json link >>= λ uri.
      ok (record { sleep_time = sleep; action = action; follow_uri = uri })

  -- Of the links that an object holds, configData is followed before cancelAction and
  -- cancelAction before deploymentBase; the others are not read.
  pub choose_action_priority :
      (links : json.Value) (sleep : ℤ) (config cancel deployment : Option json.Value)
      → json.find_member links (codes "configData") ≡ some config
      → json.find_member links (codes "cancelAction") ≡ some cancel
      → json.find_member links (codes "deploymentBase") ≡ some deployment
      → choose_action json links sleep ≡ followed sleep (first_link config cancel deployment)
  unfolding choose_action has_member member
  choose_action_priority links sleep (some a) cancel deployment p q r = rw p (rw p)
  choose_action_priority links sleep none (some b) deployment p q r = rw p (rw q (rw q))
  choose_action_priority links sleep none none (some d) p q r = rw p (rw q (rw r (rw r)))
  choose_action_priority links sleep none none none p q r = rw p (rw q (rw r))
