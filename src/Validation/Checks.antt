-- ===== src/Validation/Checks.antt =====
-- Reading a source file, parsing a schema fragment and validating policies against a schema.
use treetop_bundle.Base.{
  String, some, List, [], ◌∷◌, ◌++◌, map, starts_with, trim_start, if◌then◌else◌,
}
use treetop_bundle.Diagnostic.{Diagnostic, say, error, warning, at_path}
use treetop_bundle.Error.{BundleError, validation, io, Result, ok, ◌>>=◌, map_err}
use treetop_bundle.Host.{Host}
use treetop_bundle.Labels.Rules.{Engine, LabelRule}
use treetop_bundle.Labels.Parse.{from_raw}
use treetop_bundle.Validation.Policy.{PolicySet}
use treetop_bundle.Validation.Cedar.{
  Cedar, JsonError, ValidationResult, ValidationWarning, invalid_action_application, other_warning,
}

-- `read_utf8`
unfoldable pub read_utf8 : Host → String → Result BundleError String
read_utf8 host path = do
  bytes ← map_err (λ e. io path (say e)) (host.read path)
  map_err (λ e. validation (at_path path (error "input.invalid_utf8" (say e)) ∷ []))
      (host.from_utf8 bytes)

-- A warning on the schema check of a policy; an action applied out of its bounds is an error.
unfoldable pub policy_warning : ValidationWarning → Diagnostic
policy_warning (invalid_action_application e) = error "policy.schema_validation" (say e)
policy_warning (other_warning e) = warning "policy.schema_warning" (say e)

unfoldable pub result_diagnostics : ValidationResult → List Diagnostic
unfolding policy_warning
result_diagnostics r =
    map (λ e. error "policy.schema_validation" (say e)) r.errors ++ map policy_warning r.warnings

module _ (C : Cedar) where
  -- `parse_schema_fragment`
  unfoldable pub parse_schema_fragment : String → Result String (C.SchemaFragment × List Diagnostic)
  parse_schema_fragment source =
      if starts_with (trim_start source) "{"
      then (do fragment ← C.fragment_from_json source; ok (fragment, []))
      else (do
        parsed ← C.fragment_from_cedarschema source
        ok (parsed.0, map (λ w. warning "schema.warning" (say w)) parsed.1))

  -- `validate_policy_set`: the diagnostics that it pushes.
  unfoldable pub validate_policy_set : PolicySet → C.Schema → List Diagnostic
  unfolding result_diagnostics
  validate_policy_set policy_set schema = result_diagnostics (C.validate schema policy_set)

  unfoldable pub invalid_labels_json : JsonError → Diagnostic
  invalid_labels_json e = record (error "labels.invalid_json" (say e.message)) {
    line = some e.line;
    column = some e.column;
  }

  -- `LabelSet::from_json_str`
  unfoldable pub labels_from_json_str :
      (E : Engine) → String → Result BundleError (List (LabelRule E))
  unfolding invalid_labels_json
  labels_from_json_str E input = do
    raw ← map_err (λ e. validation (invalid_labels_json e ∷ [])) (C.labels_from_json input)
    from_raw E raw
