-- ===== src/Validation/LabelSchema.antt =====
-- `entity_attributes` and `LabelSet::validate_schema`.
use treetop_bundle.Base.{
  ℕ, suc, ◌+◌, String, Bool, Option, none, some, List, [], ◌∷◌, ◌++◌, contains, if◌then◌else◌,
}
use treetop_bundle.Diagnostic.{Diagnostic, text, error}
use treetop_bundle.Json.{Json, Fields, end, field, get, get_field, as_object, ◌>>=◌}
use treetop_bundle.Labels.Rules.{Engine, LabelRule, rule_target}
use treetop_bundle.Labels.Schema.{is_string_type, is_string_set_type, record_attributes}
use treetop_bundle.Validation.Cedar.{Cedar}

unfoldable pub count_fields : Fields → ℕ
count_fields end = 0
count_fields (field k v rest) = suc (count_fields rest)

unfoldable pub count_object : Option Fields → ℕ
unfolding count_fields
count_object none = 0
count_object (some fields) = count_fields fields

-- The common types of all namespaces: each is followed at most once.
unfoldable pub count_common : Fields → ℕ
unfolding count_object
count_common end = 0
count_common (field namespace definition rest) =
    count_object (do types ← get "commonTypes" definition; as_object types) + count_common rest

unfoldable pub count_namespaces : Option Fields → ℕ
unfolding count_common
count_namespaces none = 0
count_namespaces (some namespaces) = count_common namespaces

unfoldable pub enough_fuel : Json → ℕ
unfolding count_namespaces
enough_fuel schema_json = suc (count_namespaces (as_object schema_json))

-- A label's attribute must have the given type: the diagnostics for another type or for none.
unfoldable pub check_attribute :
    (Json → Bool) → Diagnostic → Diagnostic → Option Json → List Diagnostic
check_attribute right_type wrong missing (some value) = if right_type value then [] else wrong ∷ []
check_attribute right_type wrong missing none = missing ∷ []

-- How the JSON library prints a value in a message.
module _ (C : Cedar) (E : Engine) (show : Json → String) (schema_json : Json) where
  -- `entity_attributes`
  unfoldable pub entity_attributes : String → Option Fields
  unfolding record_attributes enough_fuel
  entity_attributes kind = do
    parsed ← C.type_name kind
    let (namespace, basename) = parsed
    namespaces ← as_object schema_json
    definition ← get_field namespace namespaces
    types ← get "entityTypes" definition
    entity ← get basename types
    shape ← get "shape" entity
    record_attributes schema_json (enough_fuel schema_json) namespace shape []

  unfoldable pub shown : Option Json → String
  shown none = ""
  shown (some value) = show value

  unfoldable pub check_attributes : LabelRule E → Option Fields → List Diagnostic
  unfolding check_attribute is_string_type is_string_set_type
  check_attributes rule none =
      error "labels.missing_shape" (
        text "label kind "
        ∷ text (rule_target E rule).resource_type
        ∷ text " has no record shape"
        ∷ [])
      ∷ []
  check_attributes rule (some attributes) =
      let kind = (rule_target E rule).resource_type in
      let output = (rule_target E rule).attribute in
      check_attribute is_string_type
        (error "labels.field_not_string" (
          text kind
          ∷ text "."
          ∷ text rule.field
          ∷ text " must have schema type String, found "
          ∷ text (shown (get_field rule.field attributes))
          ∷ []))
        (error "labels.field_missing"
          (text kind ∷ text "." ∷ text rule.field ∷ text " is not declared in the schema" ∷ []))
        (get_field rule.field attributes)
      ++ check_attribute is_string_set_type
          (error "labels.output_not_string_set" (
            text kind
            ∷ text "."
            ∷ text output
            ∷ text " must have schema type Set<String>, found "
            ∷ text (shown (get_field output attributes))
            ∷ []))
          (error "labels.output_missing"
            (text kind ∷ text "." ∷ text output ∷ text " is not declared in the schema" ∷ []))
          (get_field output attributes)

  -- One round of the loop over the rules.
  unfoldable pub check_rule_schema : List String → LabelRule E → List Diagnostic
  unfolding check_attributes entity_attributes
  check_rule_schema known_types rule =
      if contains (rule_target E rule).resource_type known_types
      then check_attributes rule (entity_attributes (rule_target E rule).resource_type)
      else error "labels.unknown_kind" (
          text "label kind "
          ∷ text (rule_target E rule).resource_type
          ∷ text " is not declared in the schema"
          ∷ [])
        ∷ []

  unfoldable pub check_rules_schema : List String → List (LabelRule E) → List Diagnostic
  unfolding check_rule_schema
  check_rules_schema known_types [] = []
  check_rules_schema known_types (rule ∷ rules) =
      check_rule_schema known_types rule ++ check_rules_schema known_types rules

  -- `LabelSet::validate_schema`
  unfoldable pub validate_schema : C.Schema → List (LabelRule E) → List Diagnostic
  unfolding check_rules_schema
  validate_schema schema rules = check_rules_schema (C.entity_types schema) rules
