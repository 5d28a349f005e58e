-- ===== src/Ddi/Payload/Polling/Errors.antt =====
-- The only exception of a poll's answer.
use up2date_cpp.Base.{◌≡◌, arith}
use up2date_cpp.Base.Int.{ℤ}
use up2date_cpp.Text.{Text}
use up2date_cpp.Outcome.{Exception, throw, unexpected_payload}
use up2date_cpp.Json.{RapidJson, has_member, member, text_member}
use up2date_cpp.Ddi.Payload.{parse_document, parse_href_object}
use up2date_cpp.Ddi.Payload.Polling.{
  sleep_time_of, sleep_text, choose_action, polling_data_from_string,
}

module _ (json : RapidJson) where
  sleep_text_throws :
      (v : json.Value) (e : Exception) → sleep_text json v ≡ throw e → e ≡ unexpected_payload
  unfolding sleep_text has_member member text_member
  sleep_text_throws v e h = ground arith

  sleep_time_of_throws :
      (t : Text) (e : Exception) → sleep_time_of t ≡ throw e → e ≡ unexpected_payload
  unfolding sleep_time_of
  sleep_time_of_throws t e h = ground arith

  choose_action_throws :
      (links : json.Value) (sleep : ℤ) (e : Exception)
      → choose_action json links sleep ≡ throw e
      → e ≡ unexpected_payload
  unfolding choose_action has_member member parse_href_object
  choose_action_throws links sleep e h = ground arith

  -- `PollingData_::fromString` throws nothing but `unexpected_payload`, whatever the body.
  pub polling_data_from_string_throws :
      (body : Text) (e : Exception)
      → polling_data_from_string json body ≡ throw e
      → e ≡ unexpected_payload
  unfolding polling_data_from_string parse_document has_member member
  polling_data_from_string_throws body e h =
      grind (arith, sleep_text_throws, sleep_time_of_throws, choose_action_throws)
