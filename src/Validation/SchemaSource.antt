-- ===== src/Validation/SchemaSource.antt =====
-- Labels against the text of a schema.
use treetop_bundle.Diagnostic.{say, error}
use treetop_bundle.Json.{Json}
use treetop_bundle.Labels.Rules.{LabelRule, Engine}
use treetop_bundle.Validation.Cedar.{JsonError, Cedar}
use treetop_bundle.Validation.LabelSchema.{validate_schema}
use treetop_bundle.Base.{String, List, [], ◌∷◌, not, is_empty}
use treetop_bundle.Error.{refuse_if, validation, map_err, BundleError, Result, ◌>>=◌}

-- `LabelSet::validate_schema_json_str`
unfoldable pub validate_schema_json_str :
    (C : Cedar) (E : Engine)
    → (Json → String)
    → List (LabelRule E)
    → String
    → Result BundleError (Unit {0})
unfolding validate_schema
validate_schema_json_str C E show_json labels source = do
  value ←
      map_err (λ (e : JsonError). validation (error "schema.invalid_json" (say e.message) ∷ []))
        (C.value_from_json source)
  schema ←
      map_err (λ e. validation (error "schema.aggregate_invalid" (say e) ∷ []))
        (C.schema_from_json value)
  let ds = validate_schema C E show_json value schema labels
  refuse_if (not (is_empty ds)) (validation ds)
