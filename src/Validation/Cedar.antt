-- ===== src/Validation/Cedar.antt =====
-- What the program takes from Cedar and from the JSON decoder, with the texts of their errors.
use treetop_bundle.Base.{ℕ, String, Option, List}
use treetop_bundle.Error.{Result}
use treetop_bundle.Json.{Json}
use treetop_bundle.Labels.Rules.{RawLabelRule}
use treetop_bundle.Validation.Policy.{Policy, PolicySet}

-- `ValidationWarning`
pub data ValidationWarning : Type 0 where
  invalid_action_application other_warning : String → ValidationWarning

-- `serde_json::Error`: its line, its column and its text.
pub record JsonError : Type 0 where
  pub line : ℕ
  pub column : ℕ
  pub message : String

-- `ValidationResult`
pub record ValidationResult : Type 0 where
  pub errors : List String
  pub warnings : List ValidationWarning

pub record Cedar : Type 1 where
  pub Schema : Type 0
  pub SchemaFragment : Type 0
  -- `source.parse::<PolicySet>()`, `PolicySet::new()`, `set.add(policy.new_id(id))`
  pub parse_policies : String → Result String PolicySet
  pub empty_set : PolicySet
  pub add_policy : PolicySet → String → Policy → Result String PolicySet
  -- `Schema::from_json_value`, `Schema::from_schema_fragments`
  pub schema_from_json : Json → Result String Schema
  pub schema_from_fragment : SchemaFragment → Result String Schema
  -- `SchemaFragment::from_json_str`, `from_cedarschema_str`, `to_json_value`
  pub fragment_from_json : String → Result String SchemaFragment
  pub fragment_from_cedarschema : String → Result String (SchemaFragment × List String)
  pub fragment_to_json : SchemaFragment → Result String Json
  -- `Validator::new(schema).validate(set, Strict)`
  pub validate : Schema → PolicySet → ValidationResult
  -- `schema.entity_types()`
  pub entity_types : Schema → List String
  -- `kind.parse::<EntityTypeName>()`: the namespace and the basename.
  pub type_name : String → Option (String × String)
  -- `serde_json::from_str` at a label document and at a value.
  pub labels_from_json : String → Result JsonError (List RawLabelRule)
  pub value_from_json : String → Result JsonError Json
