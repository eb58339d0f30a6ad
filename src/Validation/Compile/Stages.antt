-- ===== src/Validation/Compile/Stages.antt =====
-- `compile_manifest`: the policy, schema and label files of a module.
use treetop_bundle.Base.{
  ℕ, suc, String, ◌<>◌, Bool, true, false, List, [], ◌∷◌, ◌++◌, map, keep, if◌then◌else◌,
}
use treetop_bundle.Diagnostic.{Diagnostic, text, say, error, in_module, at_path}
use treetop_bundle.Error.{BundleError, validation, serialization, Result, ok, err, ◌>>=◌, map_err}
use treetop_bundle.Host.{Host}
use treetop_bundle.Json.{Json}
use treetop_bundle.Labels.Rules.{Engine, LabelRule, rule_target}
use treetop_bundle.Manifest.Module.{ModuleManifest, input_path}
use treetop_bundle.Namespace.{namespace_owns}
use treetop_bundle.Validation.Normalize.{normalize_text, single_line}
use treetop_bundle.Validation.Policy.{Policy, PolicySet}
use treetop_bundle.Validation.Ownership.{ModuleRecord}
use treetop_bundle.Validation.Cedar.{Cedar}
use treetop_bundle.Validation.ModulePolicies.{validate_module_policies}
use treetop_bundle.Validation.SchemaParts.{validate_schema_ownership, merge_schema_fragment}
use treetop_bundle.Validation.Checks.{read_utf8, parse_schema_fragment, labels_from_json_str}

-- The texts that the program prints numbers and values with, and the equality of JSON values.
pub record Printing : Type 0 where
  pub show_number : ℕ → String
  pub show_json : Json → String
  pub same_json : Json → Json → Bool

-- The local variables of `compile_manifest`.
pub record Compiling (E : Engine) : Type 0 where
  pub diagnostics : List Diagnostic
  pub policy_text : String
  pub policy_ids : List String
  pub aggregate_policy_set : PolicySet
  pub aggregate_policy_index : ℕ
  pub aggregate_policy_set_valid : Bool
  pub modules : List ModuleRecord
  pub schema_json : Json
  pub has_schema : Bool
  pub label_sets : List (List (LabelRule E))

module _ (host : Host) (C : Cedar) (E : Engine) (P : Printing) where
  abbrev pub State : Type 0
  State = Compiling E

  abbrev pub report : List Diagnostic → State → State
  report ds s = record s { diagnostics = s.diagnostics ++ ds }

  -- `diagnostic.in_module(module.name()).at_path(relative_path)`
  abbrev pub located : ModuleManifest → String → Diagnostic → Diagnostic
  located m relative d = at_path relative (in_module m.name d)

  unfoldable pub added_policy : Result String PolicySet → State → State
  added_policy (ok set) s = record s {
    aggregate_policy_set = set;
    aggregate_policy_index = suc s.aggregate_policy_index;
  }
  added_policy (err e) s = record s {
    aggregate_policy_index = suc s.aggregate_policy_index;
    aggregate_policy_set_valid = false;
    diagnostics = s.diagnostics ++ (error "policy.aggregate_build" (say e) ∷ []);
  }

  -- Each static policy joins the aggregate set under an identifier of its own.
  unfoldable pub aggregate_policies : List Policy → State → State
  unfolding added_policy
  aggregate_policies [] s = s
  aggregate_policies (policy ∷ policies) s = aggregate_policies policies (
      added_policy
        (C.add_policy s.aggregate_policy_set
          ("treetop-bundle-" <> P.show_number s.aggregate_policy_index) policy)
        s)

  -- The header line and the text of one policy file.
  unfoldable pub policy_block : String → String → String → String
  unfolding single_line
  policy_block name relative normalized =
      "// treetop-module: "
      <> (single_line name <> ("; path: " <> (single_line relative <> ("\n" <> normalized))))

  -- One policy file, once it is parsed; the second component is `module_policy_ids`.
  unfoldable pub parsed_policies :
      ModuleManifest
      → ModuleRecord
      → String
      → String
      → Result String PolicySet
      → State × List String
      → State × List String
  unfolding aggregate_policies policy_block validate_module_policies
  parsed_policies m r relative normalized (err e) (s, ids) =
      (report (located m relative (error "policy.syntax" (say e)) ∷ []) s, ids)
  parsed_policies m r relative normalized (ok parsed) (s, ids) =
      let claimed = validate_module_policies r relative parsed (record {
        module_policy_ids = ids;
        all_policy_ids = s.policy_ids;
        diagnostics = s.diagnostics;
      }) in
      let s' =
        aggregate_policies (keep (λ p. p.is_static) parsed.policies)
          (record s { policy_ids = claimed.all_policy_ids; diagnostics = claimed.diagnostics }) in
      (
        record s' { policy_text = s'.policy_text <> policy_block m.name relative normalized },
        claimed.module_policy_ids,
      )

  unfoldable pub compile_policies :
      ModuleManifest
      → ModuleRecord
      → List String
      → State × List String
      → Result BundleError (State × List String)
  unfolding parsed_policies read_utf8 normalize_text
  compile_policies m r [] s = ok s
  compile_policies m r (relative ∷ rest) s = do
    source ← read_utf8 host (input_path m relative)
    let normalized = normalize_text source
    compile_policies m r rest
        (parsed_policies m r relative normalized (C.parse_policies normalized) s)

  -- One schema file, once it is parsed.
  unfoldable pub parsed_schema :
      ModuleManifest
      → String
      → Result String (C.SchemaFragment × List Diagnostic)
      → State
      → Result BundleError State
  unfolding validate_schema_ownership merge_schema_fragment
  parsed_schema m relative (err e) s =
      ok (report (located m relative (error "schema.syntax" (say e)) ∷ []) s)
  parsed_schema m relative (ok (fragment, warnings)) s = do
    fragment_json ← map_err (λ e. serialization (say e)) (C.fragment_to_json fragment)
    let (merged, found) =
        merge_schema_fragment P.same_json m.name relative s.schema_json fragment_json
    ok (record s {
      schema_json = merged;
      diagnostics =
          s.diagnostics
          ++ (map (located m relative) warnings
              ++ (validate_schema_ownership fragment_json m.name m.namespace relative ++ found));
    })

  unfoldable pub compile_schemas : ModuleManifest → List String → State → Result BundleError State
  unfolding parsed_schema read_utf8 parse_schema_fragment
  compile_schemas m [] s = ok s
  compile_schemas m (relative ∷ rest) s = do
    source ← read_utf8 host (input_path m relative)
    s' ← parsed_schema m relative (parse_schema_fragment C source) (record s { has_schema = true })
    compile_schemas m rest s'

  -- The label rules of one file must be for types of the module's namespace.
  unfoldable pub check_label_namespace :
      ModuleManifest → String → List (LabelRule E) → List Diagnostic
  check_label_namespace m relative [] = []
  check_label_namespace m relative (rule ∷ rules) =
      (if namespace_owns m.namespace (rule_target E rule).resource_type
        then []
        else located m relative (
            error "labels.namespace_violation" (
              text "label kind "
              ∷ text (rule_target E rule).resource_type
              ∷ text " is outside namespace "
              ∷ text m.namespace
              ∷ []))
          ∷ [])
      ++ check_label_namespace m relative rules

  -- One label file, once it is parsed.
  unfoldable pub parsed_labels :
      ModuleManifest
      → String
      → Result BundleError (List (LabelRule E))
      → State
      → Result BundleError State
  unfolding check_label_namespace
  parsed_labels m relative (ok labels) s = ok (record s {
    diagnostics = s.diagnostics ++ check_label_namespace m relative labels;
    label_sets = s.label_sets ++ (labels ∷ []);
  })
  parsed_labels m relative (err (validation ds)) s = ok (report (map (located m relative) ds) s)
  parsed_labels m relative (err e) s = err e

  unfoldable pub compile_labels : ModuleManifest → List String → State → Result BundleError State
  unfolding parsed_labels read_utf8 labels_from_json_str
  compile_labels m [] s = ok s
  compile_labels m (relative ∷ rest) s = do
    source ← read_utf8 host (input_path m relative)
    s' ← parsed_labels m relative (labels_from_json_str C E source) s
    compile_labels m rest s'
