-- ===== src/Labels/Schema.antt =====
-- `LabelSet::validate_schema`: the entity types and attributes that label rules name, looked up in
-- a schema document.
use treetop_bundle.Base.{
  ℕ, zero, suc, String, ◌<>◌, Bool, false, not, ◌&&◌, ◌||◌, Option, none, some, List, ◌∷◌, contains,
  ◌==◌, strip_prefix, if◌then◌else◌,
}
use treetop_bundle.Json.{Json, string, Fields, get, get_field, as_object, as_str, ◌>>=◌}

-- `value.get("type").and_then(Value::as_str) == Some(name)`
unfoldable pub text_is : String → Option Json → Bool
text_is name (some (string s)) = s == name
text_is name _ = false

-- `is_string_type`
unfoldable pub is_string_type : Json → Bool
unfolding text_is
is_string_type value =
    text_is "String" (get "type" value)
    || text_is "EntityOrCommon" (get "type" value) && text_is "String" (get "name" value)

unfoldable pub is_string_element : Option Json → Bool
unfolding is_string_type
is_string_element none = false
is_string_element (some element) = is_string_type element

-- `is_string_set_type`
unfoldable pub is_string_set_type : Json → Bool
unfolding is_string_element text_is
is_string_set_type value =
    text_is "Set" (get "type" value) && is_string_element (get "element" value)

-- `name.rsplit_once("::")`
unfoldable pub rsplit_once : String → Option (String × String)
rsplit_once String.[] = none
rsplit_once (String.◌∷◌ c s) =
    let later = rsplit_once s in
    let here = strip_prefix "::" (String.◌∷◌ c s) in
    elim later [
      | some (before, after) ↦ some (String.◌∷◌ c before, after)
      | none ↦ elim here [ none ↦ none | some rest ↦ some ("", rest) ]
    ]

-- The namespace and the basename of a common type's name.
unfoldable pub resolve_name : String → String → String × String
unfolding rsplit_once
resolve_name namespace name = elim (rsplit_once name) [ none ↦ (namespace, name) | some p ↦ p ]

module _ (schema_json : Json) where
  -- `schema_json.get(namespace)?.get("commonTypes")?.get(basename)?`
  unfoldable pub common_type : String → String → Option Json
  common_type namespace basename = do
    namespaces ← as_object schema_json
    definition ← get_field namespace namespaces
    types ← get "commonTypes" definition
    get basename types

  -- A reference to a common type, that has not been followed, is followed by `next`.
  unfoldable pub follow_reference :
      (String → Json → List String → Option Fields) → String → Json → List String → Option Fields
  unfolding resolve_name common_type
  follow_reference next namespace shape visited = do
    value ← get "name" shape
    name ← as_str value
    let (common_namespace, basename) = resolve_name namespace name
    let qualified_name = common_namespace <> ("::" <> basename)
    if contains qualified_name visited then none else (do
      common ← common_type common_namespace basename
      next common_namespace common (qualified_name ∷ visited))

  -- `record_attributes`, with fuel for the common types that refer to one another and the set of
  -- the qualified names that it has followed.
  unfoldable pub record_attributes : ℕ → String → Json → List String → Option Fields
  unfolding text_is follow_reference
  record_attributes zero namespace shape visited = none
  record_attributes (suc fuel) namespace shape visited =
      if text_is "Record" (get "type" shape)
      then (do attributes ← get "attributes" shape; as_object attributes)
      else if not (text_is "EntityOrCommon" (get "type" shape))
      then none
      else follow_reference (record_attributes fuel) namespace shape visited
