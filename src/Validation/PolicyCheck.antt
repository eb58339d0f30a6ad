-- ===== src/Validation/PolicyCheck.antt =====
-- `check_policy`, `check_module` and the verdict on their diagnostics.
use treetop_bundle.Base.{
  String, Bool, not, ◌&&◌, ◌||◌, Option, none, some, List, [], ◌∷◌, ◌++◌, any,
}
use treetop_bundle.Diagnostic.{Diagnostic, say, error, warning, is_error, is_warning}
use treetop_bundle.Error.{BundleError, validation, serialization, Result, ok, err, ◌>>=◌, map_err}
use treetop_bundle.Host.{Host}
use treetop_bundle.Json.{Json}
use treetop_bundle.Labels.Rules.{Engine, LabelRule}
use treetop_bundle.Manifest.Module.{module_from_path}
use treetop_bundle.Manifest.Bundle.{for_single_module}
use treetop_bundle.Validation.Policy.{PolicySet}
use treetop_bundle.Validation.Cedar.{Cedar}
use treetop_bundle.Validation.Checks.{
  parse_schema_fragment, validate_policy_set, labels_from_json_str,
}
use treetop_bundle.Validation.LabelSchema.{validate_schema}
use treetop_bundle.Validation.Compile.{Printing, compile_manifest}

-- `PolicyCheck::is_valid`
unfoldable pub is_valid : List Diagnostic → Bool → Bool
is_valid diagnostics deny_warnings =
    not (any (λ d. is_error d || (deny_warnings && is_warning d)) diagnostics)

module _ (C : Cedar) (E : Engine) (P : Printing) where
  -- A part of the input, where it is given and valid, with the diagnostics of reading it.
  abbrev pub Part : Type 0 → Type 0
  Part A = Option A × List Diagnostic

  unfoldable pub policy_part : Result String PolicySet → Part PolicySet
  policy_part (ok set) = (some set, [])
  policy_part (err e) = (none, error "policy.syntax" (say e) ∷ [])

  unfoldable pub parsed_labels_part :
      Result BundleError (List (LabelRule E)) → Result BundleError (Part (List (LabelRule E)))
  parsed_labels_part (ok labels) = ok (some labels, [])
  parsed_labels_part (err (validation ds)) = ok (none, ds)
  parsed_labels_part (err e) = err e

  unfoldable pub labels_part : Option String → Result BundleError (Part (List (LabelRule E)))
  unfolding parsed_labels_part labels_from_json_str
  labels_part none = ok (none, [])
  labels_part (some source) = parsed_labels_part (labels_from_json_str C E source)

  unfoldable pub fragment_part :
      C.SchemaFragment
      → List Diagnostic
      → Result String C.Schema
      → Result BundleError (Part (C.Schema × Json))
  fragment_part fragment warnings (ok schema) = do
    json ← map_err (λ e. serialization (say e)) (C.fragment_to_json fragment)
    ok (some (schema, json), warnings)
  fragment_part fragment warnings (err e) =
      ok (none, warnings ++ (error "schema.invalid" (say e) ∷ []))

  unfoldable pub parsed_schema_part :
      Result String (C.SchemaFragment × List Diagnostic)
      → Result BundleError (Part (C.Schema × Json))
  unfolding fragment_part
  parsed_schema_part (ok (fragment, warnings)) =
      fragment_part fragment warnings (C.schema_from_fragment fragment)
  parsed_schema_part (err e) = ok (none, error "schema.syntax" (say e) ∷ [])

  unfoldable pub schema_part : Option String → Result BundleError (Part (C.Schema × Json))
  unfolding parsed_schema_part parse_schema_fragment
  schema_part none = ok (none, [])
  schema_part (some source) = parsed_schema_part (parse_schema_fragment C source)

  unfoldable pub check_policies_against :
      Option PolicySet → Option (C.Schema × Json) → List Diagnostic
  check_policies_against (some set) (some (schema, json)) = validate_policy_set C set schema
  check_policies_against (some set) none = []
  check_policies_against none schema = []

  unfoldable pub check_labels_against :
      Option (List (LabelRule E)) → Option (C.Schema × Json) → List Diagnostic
  check_labels_against (some labels) (some (schema, json)) =
      validate_schema C E P.show_json json schema labels
  check_labels_against (some labels) none =
      warning "labels.schema_check_skipped"
        (say "label/schema compatibility was not checked because no schema was provided")
      ∷ []
  check_labels_against none schema = []

  -- `check_policy`: the diagnostics of the check.
  unfoldable pub check_policy :
      String → Option String → Option String → Result BundleError (List Diagnostic)
  unfolding policy_part labels_part schema_part check_policies_against check_labels_against
  check_policy policy_source schema_source labels_source = do
    let policies = policy_part (C.parse_policies policy_source)
    labels ← labels_part labels_source
    schema ← schema_part schema_source
    ok (
        policies.1
        ++ (labels.1
            ++ (schema.1
                ++ (check_policies_against policies.0 schema.0
                    ++ check_labels_against labels.0 schema.0))))

  -- `check_module`: the diagnostics of the check.
  unfoldable pub check_module : Host → String → Result BundleError (List Diagnostic)
  unfolding module_from_path for_single_module compile_manifest
  check_module host path = do
    m ← module_from_path host path
    parts ← compile_manifest host C E P (for_single_module m)
    ok parts.diagnostics
