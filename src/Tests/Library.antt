-- ===== src/Tests/Library.antt =====
-- A concrete JSON library: documents as they are built, a parser that knows one document.
use up2date_cpp.Base.{refl, Option, none, some, List, [], ◌∷◌, ◌++◌, if◌then◌else◌}
use up2date_cpp.Base.Int.{ℤ}
use up2date_cpp.Text.{Text, codes, equal}
use up2date_cpp.Json.{RapidJson, BuildLaws, or_else}

pub data Document : Type 0 where
  words : Text → Document
  number : ℤ → Document
  empty_object empty_array : Document
  with_member : Document → Text → Document → Document
  pushed : Document → Document → Document

abbrev found_in : Option (Option Document) → Text → Document → Text → Option (Option Document)
found_in none j v k = none
found_in (some r) j v k = some (or_else r (if equal j k then some v else none))

abbrev pub find : Document → Text → Option (Option Document)
find empty_object k = some none
find (with_member o j v) k = found_in (find o k) j v k
find _ k = none

abbrev pub words_of : Document → Option Text
words_of (words t) = some t
words_of _ = none

abbrev pub number_of : Document → Option ℤ
number_of (number n) = some n
number_of _ = none

abbrev pushed_on : Option (List Document) → Document → Option (List Document)
pushed_on none v = none
pushed_on (some l) v = some (l ++ v ∷ [])

abbrev pub elements_of : Document → Option (List Document)
elements_of empty_array = some []
elements_of (pushed a v) = pushed_on (elements_of a) v
elements_of _ = none

-- The library that parses the text "{…}" as the given document, and nothing else.
abbrev pub knowing : Document → RapidJson
knowing d = record {
  Value = Document;
  parse = λ t. if equal t (codes "{...}") then some d else none;
  find_member = find;
  get_string = words_of;
  get_int = number_of;
  elements = elements_of;
  empty_object = empty_object;
  add_member = with_member;
  string = words;
  empty_array = empty_array;
  push_back = pushed;
  write = λ _. codes "{...}";
}

pub knowing-BuildLaws : (d : Document) → BuildLaws (knowing d)
knowing-BuildLaws d = record {
  find_empty = λ k. refl;
  find_add = λ o j v k r h. rw h;
  get_string-string = λ t. refl;
  elements_empty = refl;
  elements-push_back = λ a v l h. rw h;
}
