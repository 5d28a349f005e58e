-- ===== src/Json/Laws.antt =====
-- Members of the objects that a program builds.
use up2date_cpp.Base.{◌≡◌, refl, ◌∙◌, false, Option, none, some}
use up2date_cpp.Text.{Text, equal, equal_refl, c_str}
use up2date_cpp.Outcome.{ok}
use up2date_cpp.Json.{RapidJson, BuildLaws, text_member, member}

module _ (json : RapidJson) (laws : BuildLaws json) where
  -- A member that was just added is found, if there was none of its name.
  pub find_new :
      (o : json.Value) (k : Text) (v : json.Value)
      → json.find_member o k ≡ some none
      → json.find_member (json.add_member o k v) k ≡ some (some v)
  find_new o k v h = laws.find_add o k v k none h ∙ rw (equal_refl k)

  -- A member of another name changes nothing.
  pub find_other :
      (o : json.Value) (j k : Text) (v : json.Value) (r : Option json.Value)
      → equal j k ≡ false
      → json.find_member o k ≡ some r
      → json.find_member (json.add_member o j v) k ≡ some r
  find_other o j k v none ne h = laws.find_add o j v k none h ∙ rw ne
  find_other o j k v (some w) ne h = laws.find_add o j v k (some w) h

  -- A text that is a member is read up to a NUL.
  pub text_found :
      (o : json.Value) (k t : Text)
      → json.find_member o k ≡ some (some (json.string t))
      → text_member json o k ≡ ok (c_str t)
  unfolding text_member member
  text_found o k t h = rw h (rw (laws.get_string-string t) refl)
