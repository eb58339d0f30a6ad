-- ===== src/Validation/Compile.antt =====
-- `compile_manifest`: the loop over the modules of a bundle, and what is checked after it.
pub mod Stages
pub use treetop_bundle.Validation.Compile.Stages.{Printing, Compiling, located}
unfoldable pub use treetop_bundle.Validation.Compile.Stages.{
  added_policy, aggregate_policies, parsed_policies, compile_policies, parsed_schema,
  compile_schemas, parsed_labels, compile_labels,
}
use treetop_bundle.Base.{
  String, Bool, true, false, Option, none, some, List, [], ◌∷◌, ◌++◌, if◌then◌else◌,
}
use treetop_bundle.Diagnostic.{Diagnostic, has_error}
use treetop_bundle.Error.{BundleError, validation, Result, ok, err, ◌>>=◌}
use treetop_bundle.Host.{Host}
use treetop_bundle.Json.{Json, object, end}
use treetop_bundle.Labels.Rules.{Engine, LabelRule}
use treetop_bundle.Labels.Combine.{combine}
use treetop_bundle.Manifest.Bundle.{ModuleSelection, BundleManifest}
use treetop_bundle.Validation.Policy.{PolicySet}
use treetop_bundle.Validation.Ownership.{ModuleRecord}
use treetop_bundle.Validation.Cedar.{Cedar}
use treetop_bundle.Validation.Checks.{validate_policy_set}
use treetop_bundle.Validation.LabelSchema.{validate_schema}
use treetop_bundle.Validation.ArchiveParts.{BundleParts, schema_skipped, schema_invalid}

module _ (host : Host) (C : Cedar) (E : Engine) (P : Printing) where
  -- One round of the loop over the modules.
  unfoldable pub compile_module : ModuleSelection → Compiling E → Result BundleError (Compiling E)
  unfolding compile_policies compile_schemas compile_labels
  compile_module selected s = do
    let m = selected.manifest
    let r : ModuleRecord = record {
      name = m.name;
      namespace = m.namespace;
      imports = m.imports;
      role = selected.role;
      policy_ids = [];
    }
    compiled ← compile_policies host C E P m r m.policies (s, [])
    with_schemas ← compile_schemas host C E P m m.schemas compiled.0
    with_labels ← compile_labels host C E P m m.labels with_schemas
    ok (record with_labels {
      modules = with_labels.modules ++ (record r { policy_ids = compiled.1 } ∷ []);
    })

  unfoldable pub compile_modules :
      List ModuleSelection → Compiling E → Result BundleError (Compiling E)
  unfolding compile_module
  compile_modules [] s = ok s
  compile_modules (selected ∷ rest) s = do s' ← compile_module selected s; compile_modules rest s'

  -- The labels of all modules; where they do not combine, an empty set stands for them.
  unfoldable pub combined_labels :
      Result BundleError (List (LabelRule E))
      → Result BundleError (List (LabelRule E) × List Diagnostic)
  combined_labels (ok labels) = ok (labels, [])
  combined_labels (err (validation ds)) = ok ([], ds)
  combined_labels (err e) = err e

  unfoldable pub check_aggregate_policies : Bool → PolicySet → C.Schema → List Diagnostic
  check_aggregate_policies true set schema = validate_policy_set C set schema
  check_aggregate_policies false set schema = []

  -- The check of policies and labels against the aggregate schema, and the schema that is kept.
  unfoldable pub check_aggregate :
      Compiling E
      → List (LabelRule E)
      → Bool
      → Result String C.Schema
      → Option Json × List Diagnostic
  unfolding check_aggregate_policies validate_policy_set validate_schema schema_skipped
      schema_invalid
  check_aggregate s labels false schema = (none, schema_skipped ∷ [])
  check_aggregate s labels true (ok schema) = (
    some s.schema_json,
    check_aggregate_policies s.aggregate_policy_set_valid s.aggregate_policy_set schema
        ++ validate_schema C E P.show_json s.schema_json schema labels,
  )
  check_aggregate s labels true (err e) = (none, schema_invalid e ∷ [])

  abbrev pub initial : Compiling E
  initial = record {
    diagnostics = [];
    policy_text = "";
    policy_ids = [];
    aggregate_policy_set = C.empty_set;
    aggregate_policy_index = 0;
    aggregate_policy_set_valid = true;
    modules = [];
    schema_json = object end;
    has_schema = false;
    label_sets = [];
  }

  -- After the loop: errors among the diagnostics refuse the bundle.
  unfoldable pub finish_compile :
      BundleManifest
      → Compiling E
      → List (LabelRule E)
      → List Diagnostic
      → Result BundleError (BundleParts E)
  unfolding check_aggregate
  finish_compile manifest s labels label_diagnostics =
      let (schema_json, found) =
        check_aggregate s labels s.has_schema (C.schema_from_json s.schema_json) in
      let diagnostics = s.diagnostics ++ (label_diagnostics ++ found) in
      if has_error diagnostics
      then err (validation diagnostics)
      else ok (record {
        name = manifest.name;
        modules = s.modules;
        policies = s.policy_text;
        schema_json = schema_json;
        labels = labels;
        policy_ids = s.policy_ids;
        diagnostics = diagnostics;
      })

  -- `compile_manifest`
  unfoldable pub compile_manifest : BundleManifest → Result BundleError (BundleParts E)
  unfolding compile_modules combined_labels finish_compile combine
  compile_manifest manifest = do
    s ← compile_modules manifest.modules initial
    combined ← combined_labels (combine E s.label_sets)
    finish_compile manifest s combined.0 combined.1
