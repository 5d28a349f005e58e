-- ===== src/Ddi/Feedback/Config.antt =====
-- What hawkBit reads in the config data of a device that `followConfigData` puts.
use up2date_cpp.Base.{
  ◌≡◌, refl, ◌∙◌, ap, sym, Option, none, some, List, [], ◌∷◌, if◌then◌else◌, arith,
}
use up2date_cpp.Base.Int.{negsuc}
use up2date_cpp.Text.{Text, codes, equal, c_str}
use up2date_cpp.Outcome.{ok}
use up2date_cpp.Multimap.{Multimap}
use up2date_cpp.Json.{RapidJson, BuildLaws, or_else, member, text_member}
use up2date_cpp.Json.Laws.{find_new, find_other, text_found}
use up2date_cpp.Ddi.Response.{
  Response, Mode, ConfigResponse, set_mode, build_config, new_config_builder, mode_to_string,
}
use up2date_cpp.Ddi.Feedback.{
  status_object, add_data_members, config_document, fill_response_document,
}
use up2date_cpp.Ddi.Response.Added.{
  lookup, one, or_else-none, or_else_assoc, lookup_cons, added, lookup-added,
}

-- The words of hawkBit for what becomes of the data that a device had.
abbrev pub mode_word : Mode → Text
mode_word Mode.merge = codes "merge"
mode_word Mode.replace = codes "replace"
mode_word Mode.remove = codes "remove"

module _ (json : RapidJson) (laws : BuildLaws json) where
  abbrev pub text_value : Option Text → Option json.Value
  text_value none = none
  text_value (some t) = some (json.string t)

  text_value-one :
      (k v x : Text) → text_value (one k v x) ≡ (if equal k x then some (json.string v) else none)
  text_value-one k v x = ground arith

  text_value-or_else :
      (a b : Option Text) → text_value (or_else a b) ≡ or_else (text_value a) (text_value b)
  text_value-or_else none b = refl
  text_value-or_else (some a) b = refl

  find-add_data_members :
      (o : json.Value) (m : Multimap) (x : Text) (r : Option json.Value)
      → json.find_member o x ≡ some r
      → json.find_member (add_data_members json o m) x ≡ some (or_else r (text_value (lookup m x)))
  unfolding add_data_members
  find-add_data_members o [] x r h = unfold lookup in (h ∙ ap some (sym (or_else-none r)))
  find-add_data_members o ((k, v) ∷ m) x r h =
      find-add_data_members (json.add_member o k (json.string v)) m x _
        (laws.find_add o k (json.string v) x r h)
      ∙ ap some (
          or_else_assoc r _ (text_value (lookup m x))
          ∙ ap (λ a. or_else r (or_else a (text_value (lookup m x)))) (sym (text_value-one k v x))
          ∙ ap (or_else r) (
              sym (text_value-or_else (one k v x) (lookup m x))
              ∙ ap text_value (lookup_cons x k v m)))

  -- What the server finds in a document of config data: for each key its value, or no member, and
  -- the word of the mode.
  pub record ReportsData (calls : List (Text × Text)) (mode : Mode) (document : json.Value)
      : Type 0 where
    pub members : json.Value
    pub data_found : member json document (codes "data") ≡ ok members
    pub values : (x : Text) → json.find_member members x ≡ some (text_value (lookup calls x))
    pub mode_text : text_member json document (codes "mode") ≡ ok (mode_word mode)

  -- The answer of a handler that makes some calls of `addData` and one of `setMode`.
  abbrev pub config_of : List (Text × Text) → Mode → ConfigResponse
  config_of calls mode = build_config (set_mode mode (added calls new_config_builder))

  c_str-mode_to_string : (mode : Mode) → c_str (mode_to_string mode) ≡ mode_word mode
  unfolding mode_to_string c_str
  c_str-mode_to_string Mode.merge = refl
  c_str-mode_to_string Mode.replace = refl
  c_str-mode_to_string Mode.remove = refl

  module _ (calls : List (Text × Text)) (mode : Mode) where
    members_of : json.Value
    members_of = add_data_members json json.empty_object (added calls new_config_builder).data_map

    find_values : (x : Text) → json.find_member members_of x ≡ some (text_value (lookup calls x))
    unfolding members_of new_config_builder lookup
    find_values x =
        find-add_data_members json.empty_object (added calls new_config_builder).data_map x none
          (laws.find_empty x)
        ∙ ap (λ r. some (text_value r)) (lookup-added x calls new_config_builder tt)

    with_data : json.Value
    unfolding members_of
    with_data = json.add_member json.empty_object (codes "data") members_of

    with_mode : json.Value
    unfolding with_data
    with_mode = json.add_member with_data (codes "mode") (json.string (mode_to_string mode))

    config_document_lem : config_document json (config_of calls mode) ≡ with_mode
    unfolding config_document with_mode build_config set_mode
    config_document_lem = refl

    module _ (status : json.Value) where
      abbrev whole : json.Value
      whole = json.add_member with_mode (codes "status") status

      find_data : json.find_member whole (codes "data") ≡ some (some members_of)
      unfolding with_mode equal
      find_data = find_other json laws with_mode (codes "status") (codes "data") status _ refl (
          find_other json laws with_data (codes "mode") (codes "data") _ _ refl
            (find_new json laws json.empty_object (codes "data") members_of (laws.find_empty _)))

      find_mode :
          json.find_member whole (codes "mode") ≡ some (some (json.string (mode_to_string mode)))
      unfolding with_mode equal
      find_mode = find_other json laws with_mode (codes "status") (codes "mode") status _ refl (
          find_new json laws with_data (codes "mode") _ (
            find_other json laws json.empty_object (codes "data") (codes "mode") members_of none
              refl (laws.find_empty _)))

      whole-ReportsData : ReportsData calls mode whole
      unfolding member
      whole-ReportsData = record {
        members = members_of;
        data_found = rw find_data refl;
        values = find_values;
        mode_text =
            text_found json laws whole (codes "mode") (mode_to_string mode) find_mode
            ∙ ap ok (c_str-mode_to_string mode);
      }

    -- Whatever calls of `addData`, and whatever mode, made the answer of a handler, the document
    -- that `followConfigData` puts reports them: the server finds among the data, for each key, the
    -- value of the first call with this key, and no other member, and it finds the word of the
    -- mode: "merge", "replace" or "remove".
    pub config_document-ReportsData :
        (answer : Response)
        → (document : json.Value) × (fill_response_document json
              (some answer)
              (config_document json (config_of calls mode))
              (negsuc 0)
            ≡ ok document)
          × ReportsData calls mode document
    unfolding fill_response_document
    config_document-ReportsData answer = (
      whole (status_object json answer),
      ap (λ d. ok (json.add_member d (codes "status") (status_object json answer)))
          config_document_lem,
      whole-ReportsData (status_object json answer),
    )
