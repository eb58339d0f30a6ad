-- ===== src/Validation/ArchiveParts.antt =====
-- `validate_archive_parts`: the content of an archive against its manifest.
use treetop_bundle.Base.{
  String, Bool, true, false, Option, none, some, List, [], ◌∷◌, ◌++◌, any, all, contains,
  set_insert, if◌then◌else◌,
}
use treetop_bundle.Diagnostic.{Diagnostic, text, debug, say, error, warning, has_error}
use treetop_bundle.Error.{BundleError, validation, Result, ok, err, ◌>>=◌, map_err}
use treetop_bundle.Json.{Json}
use treetop_bundle.Labels.Rules.{Engine, LabelRule, rule_target}
use treetop_bundle.Namespace.{namespace_owns}
use treetop_bundle.Validation.Policy.{Policy, PolicySet}
use treetop_bundle.Validation.Ownership.{ModuleRecord, validate_policy_ownership}
use treetop_bundle.Validation.Cedar.{Cedar}
use treetop_bundle.Validation.ModulePolicies.{
  policy_id, has_templates, templates_unsupported, missing_id, duplicate_id, check_prefix,
}
use treetop_bundle.Validation.SchemaParts.{validate_aggregate_schema_ownership}
use treetop_bundle.Validation.Checks.{validate_policy_set}
use treetop_bundle.Validation.LabelSchema.{validate_schema}

-- `BundleParts`
pub record BundleParts (E : Engine) : Type 0 where
  pub name : String
  pub modules : List ModuleRecord
  pub policies : String
  pub schema_json : Option Json
  pub labels : List (LabelRule E)
  pub policy_ids : List String
  pub diagnostics : List Diagnostic

-- `module_by_policy.get(id)`: of several modules that claim an identifier the last one counts, as
-- in a map that is collected in order.
unfoldable pub module_by_policy : String → List ModuleRecord → Option ModuleRecord
module_by_policy id [] = none
module_by_policy id (m ∷ modules) = elim (module_by_policy id modules) [
  | some later ↦ some later
  | none ↦ if contains id m.policy_ids then some m else none
]

-- The identifiers met so far, in order, and the diagnostics.
pub record Actual : Type 0 where
  pub actual_ids : List String
  pub diagnostics : List Diagnostic

unfoldable pub check_assigned : Policy → String → Option ModuleRecord → List Diagnostic
unfolding check_prefix
check_assigned policy id none =
    error "archive.policy_module_missing"
      (text "policy " ∷ debug id ∷ text " is not assigned to a module" ∷ [])
    ∷ []
check_assigned policy id (some m) = check_prefix m.name id ++ validate_policy_ownership policy id m

module _ (modules : List ModuleRecord) where
  -- One round of the loop over the policies.
  unfoldable pub check_archived : Policy → Option String → Actual → Actual
  unfolding check_assigned module_by_policy missing_id duplicate_id
  check_archived policy none s = record s { diagnostics = s.diagnostics ++ (missing_id ∷ []) }
  check_archived policy (some id) s = record {
    actual_ids = set_insert id s.actual_ids;
    diagnostics =
        s.diagnostics
        ++ ((if contains id s.actual_ids then duplicate_id id ∷ [] else [])
            ++ check_assigned policy id (module_by_policy id modules));
  }

  unfoldable pub check_all_archived : List Policy → Actual → Actual
  unfolding check_archived policy_id
  check_all_archived [] s = s
  check_all_archived (policy ∷ policies) s =
      check_all_archived policies (check_archived policy (policy_id policy) s)

-- Equality of two sets of texts.
unfoldable pub same_set : List String → List String → Bool
same_set xs ys = elim (all (λ x. contains x ys) xs) [
  | true ↦ all (λ y. contains y xs) ys
  | false ↦ false
]

unfoldable pub ids_mismatch : Diagnostic
ids_mismatch =
    error "archive.policy_ids_mismatch" (say "manifest policy IDs do not match policies.cedar")

unfoldable pub schema_skipped : Diagnostic
schema_skipped = warning "schema.compatibility_skipped" (
    say
      "policy and label schema compatibility checks were skipped because the bundle has no schema")

unfoldable pub schema_invalid : String → Diagnostic
schema_invalid e = error "schema.aggregate_invalid" (say e)

module _ (C : Cedar) (E : Engine) (show : Json → String) where
  unfoldable pub check_schema :
      Json → PolicySet → List (LabelRule E) → Result String C.Schema → List Diagnostic
  unfolding schema_invalid
  check_schema schema_json set labels (ok schema) =
      validate_policy_set C set schema ++ validate_schema C E show schema_json schema labels
  check_schema schema_json set labels (err e) = schema_invalid e ∷ []

  unfoldable pub check_archived_schema :
      Option Json → List ModuleRecord → PolicySet → List (LabelRule E) → List Diagnostic
  unfolding check_schema schema_skipped
  check_archived_schema (some schema_json) modules set labels =
      validate_aggregate_schema_ownership schema_json modules
      ++ check_schema schema_json set labels (C.schema_from_json schema_json)
  check_archived_schema none modules set labels = schema_skipped ∷ []

  -- The loop over the label rules.
  unfoldable pub check_label_owners : List ModuleRecord → List (LabelRule E) → List Diagnostic
  check_label_owners modules [] = []
  check_label_owners modules (rule ∷ rules) =
      (if any (λ (m : ModuleRecord). namespace_owns m.namespace (rule_target E rule).resource_type)
          modules
        then []
        else error "labels.namespace_violation" (
            text "label kind "
            ∷ text (rule_target E rule).resource_type
            ∷ text " is not owned by any module"
            ∷ [])
          ∷ [])
      ++ check_label_owners modules rules

  -- All diagnostics of a parsed policy set, in order, with the identifiers that it has.
  unfoldable pub archive_diagnostics :
      List ModuleRecord → Option Json → List (LabelRule E) → List String → PolicySet → Actual
  unfolding check_all_archived same_set ids_mismatch check_archived_schema check_label_owners
      has_templates templates_unsupported
  archive_diagnostics modules schema_json labels declared set =
      let s = check_all_archived modules set.policies (record {
        actual_ids = [];
        diagnostics = if has_templates set then templates_unsupported ∷ [] else [];
      }) in
      record s {
        diagnostics =
            s.diagnostics
            ++ ((if same_set s.actual_ids declared then [] else ids_mismatch ∷ [])
                ++ (check_archived_schema schema_json modules set labels
                    ++ check_label_owners modules labels));
      }

  -- `validate_archive_parts`
  unfoldable pub validate_archive_parts :
      String
      → List ModuleRecord
      → String
      → Option Json
      → List (LabelRule E)
      → List String
      → Result BundleError (BundleParts E)
  unfolding archive_diagnostics
  validate_archive_parts name modules policies schema_json labels declared = do
    set ← map_err (λ e. validation (error "policy.syntax" (say e) ∷ [])) (C.parse_policies policies)
    let s = archive_diagnostics modules schema_json labels declared set
    if has_error s.diagnostics
        then err (validation s.diagnostics)
        else ok (record {
          name = name;
          modules = modules;
          policies = policies;
          schema_json = schema_json;
          labels = labels;
          policy_ids = s.actual_ids;
          diagnostics = s.diagnostics;
        })
