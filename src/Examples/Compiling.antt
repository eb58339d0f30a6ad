-- ===== src/Examples/Compiling.antt =====
-- A bundle of one module with a policy, and the parts that it compiles to.
use treetop_bundle.Validation.Policy.{collect_expr_references}
use treetop_bundle.Namespace.{namespace_owns}
use treetop_bundle.Validation.Ownership.{validate_policy_ownership}
use treetop_bundle.Labels.Limits.{validate_limits}
use treetop_bundle.Host.{ordinary}
use treetop_bundle.Error.{ok}
use treetop_bundle.Examples.Inputs.{
  example_policy, example_record, example_host, example_module, example_bundle, example_engine,
}
use treetop_bundle.Examples.Bundle.{example_printing, example_cedar}
use treetop_bundle.Validation.Compiled.{compile_manifest-CompiledFrom, CompiledFrom}
use treetop_bundle.Validation.ArchiveParts.{schema_skipped, BundleParts}
use treetop_bundle.Validation.Cedar.{Cedar}
use treetop_bundle.Validation.Compile.{compile_manifest}
use treetop_bundle.Manifest.Bundle.{BundleManifest}
use treetop_bundle.Base.{set_insert, strip_prefix, none, refl, [], ◌∷◌}

abbrev policy_cedar : Cedar
policy_cedar = record example_cedar {
  parse_policies = λ source. ok (record { policies = example_policy ∷ []; num_of_templates = 0 });
}

abbrev policy_bundle : BundleManifest
policy_bundle = record example_bundle {
  modules = record { manifest = example_module; role = ordinary } ∷ [];
}

abbrev policy_parts : BundleParts example_engine
policy_parts = record {
  name = "bundle";
  modules = example_record ∷ [];
  policies = "// treetop-module: users; path: users.cedar\n\n";
  schema_json = none;
  labels = [];
  policy_ids = "users.read" ∷ [];
  diagnostics = schema_skipped ∷ [];
}

compile_manifest-CompiledFrom_example :
    CompiledFrom example_host policy_cedar example_engine example_printing policy_bundle
      policy_parts
unfolding compile_manifest validate_limits validate_policy_ownership namespace_owns strip_prefix
    collect_expr_references set_insert
compile_manifest-CompiledFrom_example =
    compile_manifest-CompiledFrom example_host policy_cedar example_engine example_printing
      policy_bundle policy_parts refl
