-- ===== src/Ddi/Payload/Polling.antt =====
-- `PollingData_::fromString`: the answer to a poll.
pub mod Errors
pub mod Sleep
pub mod Priority
use up2date_cpp.Base.{Bool, true, false, ◌&&◌, Option, none, some, [], if◌then◌else◌}
use up2date_cpp.Base.Int.{ℤ, negsuc, ◌+ℤ◌, times, fits_int}
use up2date_cpp.Text.{Text, codes, is_empty}
use up2date_cpp.Text.Scan.{scan_time}
use up2date_cpp.Outcome.{Result, ok, throw, fault, overflow, unexpected_payload, ◌>>=◌}
use up2date_cpp.Uri.{Uri, no_uri}
use up2date_cpp.Json.{RapidJson, has_member, member, text_member}
use up2date_cpp.Ddi.Payload.{checked_int, parse_document, parse_href_object}

-- `enum Actions_`
pub data Action : Type 0 where
  get_config_data cancel_action deployment_base no_action : Action

-- `class PollingData_`
pub record PollingData : Type 0 where
  pub sleep_time : ℤ
  pub action : Action
  pub follow_uri : Uri

abbrev all_fit : ℤ × ℤ × ℤ → Bool
all_fit (hh, mm, ss) = fits_int hh && (fits_int mm && fits_int ss)

abbrev milliseconds : ℤ × ℤ × ℤ → Result ℤ
milliseconds (hh, mm, ss) = do
  hours ← checked_int (times hh 3600)
  minutes ← checked_int (times mm 60)
  sum ← checked_int (hours +ℤ minutes)
  seconds ← checked_int (sum +ℤ ss)
  checked_int (times seconds 1000)

abbrev scanned_time : Option (ℤ × ℤ × ℤ) → Result ℤ
scanned_time none = throw unexpected_payload
scanned_time (some t) = if all_fit t then milliseconds t else fault overflow

-- `hh:mm:ss` in milliseconds. A number that `%d` cannot store, and a product or a sum outside
-- the range of `int`, are undefined behaviour.
unfoldable pub sleep_milliseconds : Text → Result ℤ
sleep_milliseconds s = scanned_time (scan_time s)

-- -1 is "no sleep time".
unfoldable pub sleep_time_of : Text → Result ℤ
unfolding sleep_milliseconds
sleep_time_of s = if is_empty s then ok (negsuc 0) else sleep_milliseconds s

module _ (json : RapidJson) where
  text_if : Bool → json.Value → Text → Result Text
  text_if false v k = ok []
  text_if true v k = text_member json v k

  polling_sleep : Bool → json.Value → Result Text
  unfolding text_if
  polling_sleep false config = ok []
  polling_sleep true config = do
    polling ← member json config (codes "polling")
    given ← has_member json polling (codes "sleep")
    text_if given polling (codes "sleep")

  config_sleep : Bool → json.Value → Result Text
  unfolding polling_sleep
  config_sleep false document = ok []
  config_sleep true document = do
    config ← member json document (codes "config")
    polled ← has_member json config (codes "polling")
    polling_sleep polled config

  -- config.polling.sleep, or the empty string
  unfoldable pub sleep_text : json.Value → Result Text
  unfolding config_sleep
  sleep_text document = do
    configured ← has_member json document (codes "config")
    config_sleep configured document

  follow : json.Value → Text → ℤ → Action → Result PollingData
  follow links name sleep action = do
    link ← member json links name
    uri ← parse_href_object json link
    ok (record { sleep_time = sleep; action = action; follow_uri = uri })

  abbrev nothing_to_do : ℤ → PollingData
  nothing_to_do sleep = record { sleep_time = sleep; action = no_action; follow_uri = no_uri }

  choose_deployment : Bool → json.Value → ℤ → Result PollingData
  unfolding follow
  choose_deployment true links sleep = follow links (codes "deploymentBase") sleep deployment_base
  choose_deployment false links sleep = ok (nothing_to_do sleep)

  choose_cancel : Bool → json.Value → ℤ → Result PollingData
  unfolding follow choose_deployment
  choose_cancel true links sleep = follow links (codes "cancelAction") sleep cancel_action
  choose_cancel false links sleep = do
    deployment ← has_member json links (codes "deploymentBase")
    choose_deployment deployment links sleep

  choose_config : Bool → json.Value → ℤ → Result PollingData
  unfolding follow choose_cancel
  choose_config true links sleep = follow links (codes "configData") sleep get_config_data
  choose_config false links sleep = do
    cancel ← has_member json links (codes "cancelAction")
    choose_cancel cancel links sleep

  -- The link to follow: configData, then cancelAction, then deploymentBase.
  unfoldable pub choose_action : json.Value → ℤ → Result PollingData
  unfolding choose_config
  choose_action links sleep = do
    config ← has_member json links (codes "configData")
    choose_config config links sleep

  choose_link : Bool → json.Value → ℤ → Result PollingData
  choose_link false document sleep = ok (nothing_to_do sleep)
  choose_link true document sleep = do
    links ← member json document (codes "_links")
    choose_action links sleep

  unfoldable pub polling_data_from_string : Text → Result PollingData
  unfolding choose_link
  polling_data_from_string body = do
    document ← parse_document json body
    text ← sleep_text document
    sleep ← sleep_time_of text
    linked ← has_member json document (codes "_links")
    choose_link linked document sleep
