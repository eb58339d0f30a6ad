-- ===== src/Examples/Inputs.antt =====
-- A host, a regular expression engine and inputs for them.
use treetop_bundle.Base.{ℕ, String, some, true, List, [], ◌∷◌, ◌==◌, if◌then◌else◌}
use treetop_bundle.Error.{ok, err}
use treetop_bundle.Host.{Host, RawModuleManifest, ordinary}
use treetop_bundle.Manifest.Module.{ModuleManifest}
use treetop_bundle.Manifest.Bundle.{BundleManifest}
use treetop_bundle.Labels.Rules.{
  LabelPattern, LabelTarget, RawLabelRule, LabelRule, Engine, regex_labeler,
}
use treetop_bundle.Validation.Policy.{
  Policy, scope_in, entity, action_eq, any_entity, when_clause, is_type, other,
}
use treetop_bundle.Validation.Ownership.{ModuleRecord}

abbrev pub example_raw : RawModuleManifest
example_raw = record {
  format_version = 2;
  name = "users";
  namespace = "Users";
  imports = "Groups" ∷ [];
  policies = "users.cedar" ∷ [];
  schemas = [];
  labels = [];
}

abbrev pub example_host : Host
example_host = record {
  read = λ path. ok [];
  from_utf8 = λ bytes. ok "";
  canonicalize = λ path. if path == "users.toml" then ok "/b/users.toml" else ok path;
  is_file = λ path. true;
  module_from_toml = λ source. ok example_raw;
  bundle_from_toml = λ source. err "no bundle";
  is_type_name = λ name. true;
}

abbrev pub example_module : ModuleManifest
example_module = record {
  format_version = 2;
  name = "users";
  namespace = "Users";
  imports = "Groups" ∷ [];
  policies = "users.cedar" ∷ [];
  schemas = [];
  labels = [];
  path = "/b/users.toml";
  directory = "/b";
}

abbrev pub example_pattern : LabelPattern
example_pattern = record { name = "admin"; regex = "^admin" }

abbrev pub example_target : LabelTarget
example_target = record { resource_type = "Host"; attribute = "labels" }

abbrev pub first_index : List String → List ℕ
first_index [] = []
first_index (source ∷ sources) = 0 ∷ []

-- Regular expressions are their sources, and every set reports its first pattern.
abbrev pub example_engine : Engine
example_engine = record {
  Regex = String;
  RegexSet = List String;
  build_regex = λ source size dfa_size. ok source;
  build_regex_set = λ sources size dfa_size. ok sources;
  matches = λ compiled value. first_index compiled;
  new_target = λ resource_type attribute.
      ok (record { resource_type = resource_type; attribute = attribute });
  new_regex_labeler = λ target field named. ok tt;
}

abbrev pub example_rule : LabelRule example_engine
example_rule = record {
  field = "name";
  patterns = example_pattern ∷ [];
  runtime = regex_labeler example_target "name" (("admin", "^admin") ∷ []);
}

abbrev pub example_raw_rule : RawLabelRule
example_raw_rule = record {
  target = record { resource_type = "Host"; attribute = "labels" };
  field = "name";
  patterns = example_pattern ∷ [];
}

abbrev pub example_record : ModuleRecord
example_record = record {
  name = "users";
  namespace = "Users";
  imports = "Groups" ∷ [];
  role = ordinary;
  policy_ids = "users.read" ∷ [];
}

abbrev pub example_policy : Policy
example_policy = record {
  id = some "users.read";
  is_static = true;
  pst = ok (record {
    principal = scope_in (entity "Groups::Group");
    action = action_eq "Users::Action";
    resource = any_entity;
    clauses = when_clause (is_type "Users::User" other) ∷ [];
  });
}

-- A host with a bundle of one module, which imports nothing.
abbrev pub example_bundle_host : Host
example_bundle_host = record example_host {
  module_from_toml = λ source. ok (record example_raw { imports = [] });
  bundle_from_toml = λ source. ok (record {
    format_version = 2;
    name = "bundle";
    modules = record { manifest = "users.toml"; role = ordinary } ∷ [];
  });
}

abbrev pub example_bundle : BundleManifest
example_bundle = record {
  format_version = 2;
  name = "bundle";
  modules = record { manifest = record example_module { imports = [] }; role = ordinary } ∷ [];
  path = "bundle.toml";
}
