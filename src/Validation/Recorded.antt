-- ===== src/Validation/Recorded.antt =====
-- The policy identifiers that `compile_manifest` records for a module are those of its policy files.
use treetop_bundle.Validation.Checks.{read_utf8}
use treetop_bundle.Validation.Normalize.{normalize_text}
use treetop_bundle.Validation.Compile.Stages.{
  Compiling, compile_policies, parsed_policies, Printing,
}
use treetop_bundle.Validation.CompiledFiles.{module_of}
use treetop_bundle.Manifest.Bundle.{ModuleSelection}
use treetop_bundle.Manifest.Module.{input_path, ModuleManifest}
use treetop_bundle.Labels.Rules.{Engine}
use treetop_bundle.Validation.ModulePolicies.{
  located, templates_unsupported, has_templates, push, Claimed, claim_policies,
  validate_module_policies, policy_id, claim_policy,
}
use treetop_bundle.Validation.Cedar.{Cedar}
use treetop_bundle.Host.{Host}
use treetop_bundle.Validation.Ownership.{ModuleRecord}
use treetop_bundle.Validation.Policy.{PolicySet, Policy}
use treetop_bundle.Base.{
  ◌∙◌, if◌then◌else◌, ap, sym, ◌++◌, ◌≡◌, String, Option, refl, [], ◌∷◌, List, none, some,
}
use treetop_bundle.Error.{>>=-eq-ok, ok-injective, BundleError, Result, ok, err}
use mathlib.Core.List.{append_assoc, append-nil}

abbrev own_id : Option String → List String
own_id none = []
own_id (some id) = id ∷ []

-- The identifiers of the policies that have one, in order.
abbrev pub ids_of : List Policy → List String
ids_of [] = []
ids_of (policy ∷ policies) = own_id (policy_id policy) ++ ids_of policies

abbrev pub parsed_ids : Result String PolicySet → List String
parsed_ids (ok set) = ids_of set.policies
parsed_ids (err e) = []

module _ (m : ModuleRecord) (relative : String) where
  module_policy_ids-claim_policy :
      (policy : Policy) (o : Option String) (s : Claimed)
      → (claim_policy m relative policy o s).module_policy_ids ≡ s.module_policy_ids ++ own_id o
  unfolding claim_policy
  module_policy_ids-claim_policy policy none s = sym (append-nil s.module_policy_ids)
  module_policy_ids-claim_policy policy (some id) s = refl

  module_policy_ids-claim_policies :
      (policies : List Policy) (s : Claimed)
      → (claim_policies m relative policies s).module_policy_ids
        ≡ s.module_policy_ids ++ ids_of policies
  unfolding claim_policies
  module_policy_ids-claim_policies [] s = sym (append-nil s.module_policy_ids)
  module_policy_ids-claim_policies (policy ∷ policies) s =
      let o = policy_id policy in
      module_policy_ids-claim_policies policies (claim_policy m relative policy o s)
      ∙ ap (λ l. l ++ ids_of policies) (module_policy_ids-claim_policy policy o s)
      ∙ append_assoc s.module_policy_ids (own_id o) (ids_of policies)

  module_policy_ids-validate_module_policies :
      (set : PolicySet) (s : Claimed)
      → (validate_module_policies m relative set s).module_policy_ids
        ≡ s.module_policy_ids ++ ids_of set.policies
  unfolding validate_module_policies
  module_policy_ids-validate_module_policies set s =
      module_policy_ids-claim_policies set.policies
        (push (if has_templates set then located m relative templates_unsupported ∷ [] else []) s)

module _ (host : Host) (C : Cedar) where
  abbrev read_ids : Result BundleError String → List String
  read_ids (ok source) = parsed_ids (C.parse_policies (normalize_text source))
  read_ids (err e) = []

  -- The identifiers of the policies in the files of a module, in order.
  abbrev pub files_ids : ModuleManifest → List String → List String
  files_ids m [] = []
  files_ids m (relative ∷ rest) =
      read_ids (read_utf8 host (input_path m relative)) ++ files_ids m rest

  -- The record of a selected module.
  abbrev pub compiled_module : ModuleSelection → ModuleRecord
  compiled_module selected = record (module_of selected) {
    policy_ids = files_ids selected.manifest selected.manifest.policies;
  }

  module _ (E : Engine) (P : Printing) where
    ids-parsed_policies :
        (m : ModuleManifest) (r : ModuleRecord) (relative normalized : String)
        (parsed : Result String PolicySet) (s : Compiling E × List String)
        → (parsed_policies host C E P m r relative normalized parsed s).1 ≡ s.1 ++ parsed_ids parsed
    unfolding parsed_policies
    ids-parsed_policies m r relative normalized (err e) (s, ids) = sym (append-nil ids)
    ids-parsed_policies m r relative normalized (ok set) (s, ids) =
        module_policy_ids-validate_module_policies r relative set (record {
          module_policy_ids = ids;
          all_policy_ids = s.policy_ids;
          diagnostics = s.diagnostics;
        })

    pub ids-compile_policies :
        (m : ModuleManifest) (r : ModuleRecord) (files : List String)
        (s t : Compiling E × List String)
        → compile_policies host C E P m r files s ≡ ok t
        → t.1 ≡ s.1 ++ files_ids m files
    unfolding compile_policies
    ids-compile_policies m r [] s t h =
        ap (λ (x : Compiling E × List String). x.1) (sym (ok-injective h)) ∙ sym (append-nil s.1)
    ids-compile_policies m r (relative ∷ rest) s t h =
        let (source, e, h1) = >>=-eq-ok (read_utf8 host (input_path m relative)) _ h in
        let normalized = normalize_text source in
        let parsed = C.parse_policies normalized in
        let next = parsed_policies host C E P m r relative normalized parsed s in
        ids-compile_policies m r rest next t h1
        ∙ ap (λ l. l ++ files_ids m rest) (ids-parsed_policies m r relative normalized parsed s)
        ∙ append_assoc s.1 (parsed_ids parsed) (files_ids m rest)
        ∙ ap (λ l. s.1 ++ (l ++ files_ids m rest)) (ap read_ids (sym e))
