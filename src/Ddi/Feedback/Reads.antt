-- ===== src/Ddi/Feedback/Reads.antt =====
-- What hawkBit reads in the documents that the client builds, by the laws of the JSON library.
use up2date_cpp.Base.{
  ◌≡◌, refl, ◌∙◌, ap, false, Option, none, some, List, [], ◌∷◌, ◌++◌, append_assoc, append-nil,
}
use up2date_cpp.Base.Int.{ℤ, pos, negsuc}
use up2date_cpp.Text.{Text, codes, equal, c_str}
use up2date_cpp.Text.Scan.{to_string}
use up2date_cpp.Text.Printed.{c_str-to_string}
use up2date_cpp.Outcome.{ok}
use up2date_cpp.Json.Laws.{find_new, find_other}
use up2date_cpp.Json.{RapidJson, BuildLaws, member, text_member, has_member}
use up2date_cpp.Ddi.Response.{
  Finished, Execution, Response, finished_to_string, execution_to_string,
}
use up2date_cpp.Ddi.Feedback.{push_details, status_object, add_action_id, fill_response_document}

-- The words of hawkBit for a result and for the state of an execution.
abbrev pub finished_word : Finished → Text
finished_word Finished.success = codes "success"
finished_word Finished.failure = codes "failure"
finished_word Finished.no_result = codes "none"

abbrev pub execution_word : Execution → Text
execution_word Execution.closed = codes "closed"
execution_word Execution.proceeding = codes "proceeding"
execution_word Execution.canceled = codes "canceled"
execution_word Execution.scheduled = codes "scheduled"
execution_word Execution.rejected = codes "rejected"
execution_word Execution.resumed = codes "resumed"
execution_word Execution.download = codes "download"
execution_word Execution.downloaded = codes "downloaded"

c_str-finished_to_string : (f : Finished) → c_str (finished_to_string f) ≡ finished_word f
unfolding finished_to_string c_str
c_str-finished_to_string Finished.success = refl
c_str-finished_to_string Finished.failure = refl
c_str-finished_to_string Finished.no_result = refl

c_str-execution_to_string : (e : Execution) → c_str (execution_to_string e) ≡ execution_word e
unfolding execution_to_string c_str
c_str-execution_to_string Execution.closed = refl
c_str-execution_to_string _ = refl

module _ (json : RapidJson) (laws : BuildLaws json) where
  -- The texts of an array of strings.
  unfoldable pub texts_of : List json.Value → Option (List Text)
  texts_of [] = some []
  texts_of (v ∷ vs) = elim (json.get_string v) [
    | none ↦ none
    | some t ↦ elim (texts_of vs) [ none ↦ none | some ts ↦ some (t ∷ ts) ]
  ]

  strings : List Text → List json.Value
  strings [] = []
  strings (t ∷ ts) = json.string t ∷ strings ts

  elements-push_details :
      (array : json.Value) (ts : List Text) (l : List json.Value)
      → json.elements array ≡ some l
      → json.elements (push_details json array ts) ≡ some (l ++ strings ts)
  unfolding push_details strings
  elements-push_details array [] l h = rw append-nil h
  elements-push_details array (t ∷ ts) l h =
      elements-push_details (json.push_back array (json.string t)) ts (l ++ json.string t ∷ [])
        (laws.elements-push_back array (json.string t) l h)
      ∙ rw append_assoc

  texts_of-strings : (ts : List Text) → texts_of (strings ts) ≡ some ts
  unfolding texts_of strings
  texts_of-strings [] = refl
  texts_of-strings (t ∷ ts) = rw (laws.get_string-string t) (rw (texts_of-strings ts))

  -- The id as text, or no id where it is negative.
  abbrev pub IdFound : json.Value → ℤ → Type 0
  IdFound document (pos n) = text_member json document (codes "id") ≡ ok (to_string (pos n))
  IdFound document (negsuc n) = has_member json document (codes "id") ≡ ok false

  -- What the server finds in a feedback document: the result, the execution state and the details
  -- of the response, and the id of the action if it is not negative.
  pub record Reports (r : Response) (id : ℤ) (document : json.Value) : Type 0 where
    pub status : json.Value
    pub result : json.Value
    pub details : json.Value
    pub items : List json.Value
    pub status_found : member json document (codes "status") ≡ ok status
    pub result_found : member json status (codes "result") ≡ ok result
    pub finished_text : text_member json result (codes "finished") ≡ ok (finished_word r.finished)
    pub execution_text :
        text_member json status (codes "execution") ≡ ok (execution_word r.execution)
    pub details_found : member json status (codes "details") ≡ ok details
    pub details_elements : json.elements details ≡ some items
    pub details_texts : texts_of items ≡ some r.details
    pub id_found : IdFound document id

  member_of_find :
      (o : json.Value) (k : Text) (v : json.Value)
      → json.find_member o k ≡ some (some v)
      → member json o k ≡ ok v
  unfolding member
  member_of_find o k v h = rw h

  text_of_find :
      (o : json.Value) (k t : Text)
      → json.find_member o k ≡ some (some (json.string t))
      → text_member json o k ≡ ok (c_str t)
  unfolding text_member
  text_of_find o k t h = rw (member_of_find o k (json.string t) h) (rw (laws.get_string-string t))

  module _ (r : Response) where
    finished_object : json.Value
    finished_object =
        json.add_member json.empty_object (codes "finished")
          (json.string (finished_to_string r.finished))

    with_result : json.Value
    unfolding finished_object
    with_result = json.add_member json.empty_object (codes "result") finished_object

    with_execution : json.Value
    unfolding with_result
    with_execution =
        json.add_member with_result (codes "execution")
          (json.string (execution_to_string r.execution))

    details_array : json.Value
    details_array = push_details json json.empty_array r.details

    whole_status : json.Value
    unfolding with_execution details_array
    whole_status = json.add_member with_execution (codes "details") details_array

    status_object_lem : status_object json r ≡ whole_status
    unfolding status_object whole_status
    status_object_lem = refl

    find_result : json.find_member whole_status (codes "result") ≡ some (some finished_object)
    unfolding whole_status equal
    find_result =
        find_other json laws with_execution (codes "details") (codes "result") details_array _ refl
          (find_other json laws with_result (codes "execution") (codes "result") _ _ refl (
            find_new json laws json.empty_object (codes "result") finished_object
              (laws.find_empty _)))

    find_execution :
        json.find_member whole_status (codes "execution")
        ≡ some (some (json.string (execution_to_string r.execution)))
    unfolding whole_status equal
    find_execution =
        find_other json laws with_execution (codes "details") (codes "execution") details_array _
          refl
          (find_new json laws with_result (codes "execution")
            (json.string (execution_to_string r.execution))
            (find_other json laws json.empty_object (codes "result") (codes "execution")
              finished_object none refl (laws.find_empty _)))

    find_details : json.find_member whole_status (codes "details") ≡ some (some details_array)
    unfolding whole_status equal
    find_details = find_new json laws with_execution (codes "details") details_array (
        find_other json laws with_result (codes "execution") (codes "details") _ none refl (
          find_other json laws json.empty_object (codes "result") (codes "details") finished_object
            none refl (laws.find_empty _)))

    with_status : json.Value
    with_status = json.add_member json.empty_object (codes "status") whole_status

    find_status :
        (id : ℤ)
        → json.find_member (add_action_id json with_status id) (codes "status")
          ≡ some (some whole_status)
    unfolding add_action_id with_status equal
    find_status (pos n) =
        find_other json laws with_status (codes "id") (codes "status") _ _ refl
          (find_new json laws json.empty_object (codes "status") whole_status (laws.find_empty _))
    find_status (negsuc n) =
        find_new json laws json.empty_object (codes "status") whole_status (laws.find_empty _)

    find_no_id : json.find_member with_status (codes "id") ≡ some none
    unfolding with_status equal
    find_no_id =
        find_other json laws json.empty_object (codes "status") (codes "id") whole_status none refl
          (laws.find_empty _)

    id_reads : (id : ℤ) → IdFound (add_action_id json with_status id) id
    unfolding add_action_id has_member
    id_reads (pos n) =
        text_of_find _ (codes "id") (to_string (pos n))
          (find_new json laws with_status (codes "id") _ find_no_id)
        ∙ ap ok (c_str-to_string n)
    id_reads (negsuc n) = rw find_no_id

    finished_reads :
        text_member json finished_object (codes "finished") ≡ ok (finished_word r.finished)
    unfolding finished_object
    finished_reads =
        text_of_find _ (codes "finished") (finished_to_string r.finished)
          (find_new json laws json.empty_object (codes "finished") _ (laws.find_empty _))
        ∙ ap ok (c_str-finished_to_string r.finished)

    details_read : json.elements details_array ≡ some (strings r.details)
    unfolding details_array
    details_read = elements-push_details json.empty_array r.details [] laws.elements_empty

    filled_lem :
        (id : ℤ)
        → fill_response_document json (some r) json.empty_object id
          ≡ ok (add_action_id json with_status id)
    unfolding fill_response_document with_status whole_status
    filled_lem id = refl

    with_status-Reports : (id : ℤ) → Reports r id (add_action_id json with_status id)
    with_status-Reports id = record {
      status = whole_status;
      result = finished_object;
      details = details_array;
      items = strings r.details;
      status_found = member_of_find _ _ _ (find_status id);
      result_found = member_of_find _ _ _ find_result;
      finished_text = finished_reads;
      execution_text =
          text_of_find whole_status (codes "execution") _ find_execution
          ∙ ap ok (c_str-execution_to_string r.execution);
      details_found = member_of_find _ _ _ find_details;
      details_elements = details_read;
      details_texts = texts_of-strings r.details;
      id_found = id_reads id;
    }

  -- From an empty document `fillResponseDocument` returns one, for every response and id, that
  -- reports them: the server finds hawkBit's word of the result ("success", "failure" or "none")
  -- and of the execution ("closed", "proceeding", "canceled", "scheduled", "rejected", "resumed",
  -- "download" or "downloaded"), all the details in order, and the number of the action, or no
  -- "id" for a negative one.
  pub fill_response_document-Reports :
      (r : Response) (id : ℤ)
      → (document : json.Value) × (fill_response_document json (some r) json.empty_object id
          ≡ ok document)
        × Reports r id document
  fill_response_document-Reports r id =
      (add_action_id json (with_status r) id, filled_lem r id, with_status-Reports r id)
