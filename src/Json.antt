-- ===== src/Json.antt =====
-- The JSON library (deps/rapidjson, a git submodule) as the clients use it: an interface of
-- operations, with the documented laws that proofs about built documents rest on. A result of
-- `none` stands for a failed RAPIDJSON_ASSERT.
pub mod Laws
use up2date_cpp.Base.{◌≡◌, Bool, Option, none, some, List, [], ◌∷◌, ◌++◌, if◌then◌else◌, is_some}
use up2date_cpp.Base.Int.{ℤ}
use up2date_cpp.Text.{Text, equal, c_str}
use up2date_cpp.Outcome.{Result, ok, asserted, ◌>>=◌}

pub record RapidJson : Type 1 where
  pub Value : Type 0
  -- `Document::Parse`; `none` is `HasParseError()`
  pub parse : Text → Option Value
  -- `FindMember` of an object; an assertion fails on any other value
  pub find_member : Value → Text → Option (Option Value)
  -- `GetString`, `GetInt`, `Begin`/`End`
  pub get_string : Value → Option Text
  pub get_int : Value → Option ℤ
  pub elements : Value → Option (List Value)
  -- `Value(kObjectType)`, `AddMember`, a string, `Value(kArrayType)`, `PushBack`, `Accept(writer)`
  pub empty_object : Value
  pub add_member : Value → Text → Value → Value
  pub string : Text → Value
  pub empty_array : Value
  pub push_back : Value → Value → Value
  pub write : Value → Text

-- The first of two members with one name is the one that is found.
abbrev pub or_else {ℓ} : {A : Type ℓ} → Option A → Option A → Option A
or_else none b = b
or_else (some a) b = some a

-- What the library documents of the values that a program builds.
pub record BuildLaws (json : RapidJson) : Type 0 where
  pub find_empty : (k : Text) → json.find_member json.empty_object k ≡ some none
  pub find_add :
      (o : json.Value) (j : Text) (v : json.Value) (k : Text) (r : Option json.Value)
      → json.find_member o k ≡ some r
      → json.find_member (json.add_member o j v) k
        ≡ some (or_else r (if equal j k then some v else none))
  pub get_string-string : (t : Text) → json.get_string (json.string t) ≡ some t
  pub elements_empty : json.elements json.empty_array ≡ some []
  pub elements-push_back :
      (a v : json.Value) (l : List json.Value)
      → json.elements a ≡ some l
      → json.elements (json.push_back a v) ≡ some (l ++ v ∷ [])

module _ (json : RapidJson) where
  -- `value.HasMember(name)`
  unfoldable pub has_member : json.Value → Text → Result Bool
  has_member v k = do m ← asserted (json.find_member v k); ok (is_some m)

  -- `value[name]`; an assertion fails where there is no such member
  unfoldable pub member : json.Value → Text → Result json.Value
  member v k = do m ← asserted (json.find_member v k); asserted m

  -- `std::string = value[name].GetString()`, through a C string
  unfoldable pub text_member : json.Value → Text → Result Text
  text_member v k = do m ← member v k; t ← asserted (json.get_string m); ok (c_str t)
