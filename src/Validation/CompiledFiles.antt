-- ===== src/Validation/CompiledFiles.antt =====
-- What the policy files of a module add when a bundle compiles.
use treetop_bundle.Validation.Errors.{has_error-append}
use treetop_bundle.Validation.Grows.{Grows-aggregate}
use treetop_bundle.Validation.Claims.{module_policies_quiet, module_policies-IsAscending, IsClaimed}
use treetop_bundle.Validation.Normalize.{normalize_text}
use treetop_bundle.Validation.ModulePolicies.{validate_module_policies, has_templates, Claimed}
use treetop_bundle.Diagnostic.{say, error, has_error}
use treetop_bundle.Validation.Checks.{read_utf8}
use treetop_bundle.Error.{ok-injective, >>=-eq-ok, ok, err, Result}
use treetop_bundle.Validation.Policy.{PolicySet}
use treetop_bundle.Validation.Compile.{
  located, Compiling, parsed_policies, compile_policies, Printing,
}
use treetop_bundle.Labels.Rules.{Engine}
use treetop_bundle.Manifest.Module.{input_path, ModuleManifest}
use treetop_bundle.Validation.Cedar.{Cedar}
use treetop_bundle.Validation.Ownership.{ModuleRecord}
use treetop_bundle.Host.{Host}
use treetop_bundle.Manifest.Bundle.{ModuleSelection}
use treetop_bundle.Base.{
  sym, keep, ◌∙◌, arith, false, subst, IsAscending, String, All, ◌≡◌, refl, [], List, ◌∷◌,
}

-- The module as it is before its policies are read.
abbrev pub module_of : ModuleSelection → ModuleRecord
module_of selected = record {
  name = selected.manifest.name;
  namespace = selected.manifest.namespace;
  imports = selected.manifest.imports;
  role = selected.role;
  policy_ids = [];
}

module _ (host : Host) (C : Cedar) where
  -- The file is read and parsed, has no templates, and its policies have identifiers and keep to
  -- the module.
  pub record IsCompiled (m : ModuleManifest) (r : ModuleRecord) (relative : String) : Type 0 where
    pub source : String
    pub set : PolicySet
    pub read : read_utf8 host (input_path m relative) ≡ ok source
    pub parsed : C.parse_policies (normalize_text source) ≡ ok set
    pub static : has_templates set ≡ false
    pub claimed : All (IsClaimed r) set.policies

  -- Every policy file of the module is compiled.
  abbrev pub HasPolicies : ModuleSelection → Type 0
  HasPolicies selected =
      All (IsCompiled selected.manifest (module_of selected)) selected.manifest.policies

  module _ (E : Engine) (P : Printing) where
    -- One policy file after which there is no error.
    record File (r : ModuleRecord) (parsed : Result String PolicySet) (before : Compiling E)
        : Type 0 where
      pub quiet : has_error before.diagnostics ≡ false
      pub set : PolicySet
      pub same : parsed ≡ ok set
      pub static : has_templates set ≡ false
      pub claimed : All (IsClaimed r) set.policies

    File-of_quiet :
        (m : ModuleManifest) (r : ModuleRecord) (relative normalized : String)
        (parsed : Result String PolicySet) (s : Compiling E × List String)
        → has_error (parsed_policies host C E P m r relative normalized parsed s).0.diagnostics
          ≡ false
        → File r parsed s.0
    unfolding parsed_policies
    File-of_quiet m r relative normalized (err e) (s, ids) h = absurd (
        ground (
          arith,
          h,
          has_error-append s.diagnostics
              (located host C E P m relative (error "policy.syntax" (say e)) ∷ []),
        ))
    File-of_quiet m r relative normalized (ok set) (s, ids) h =
        let c = validate_module_policies r relative set (record {
          module_policy_ids = ids;
          all_policy_ids = s.policy_ids;
          diagnostics = s.diagnostics;
        }) in
        let g =
          Grows-aggregate host C E P (keep (λ p. p.is_static) set.policies)
            (record s { policy_ids = c.all_policy_ids; diagnostics = c.diagnostics }) in
        let (quiet, static, claimed) = module_policies_quiet r relative set _ (g.quiet h) in
        record { quiet = quiet; set = set; same = refl; static = static; claimed = claimed }

    -- The policies of one file leave the modules and the order of the identifiers.
    pub record Kept (before after : Compiling E) : Type 0 where
      pub modules : after.modules ≡ before.modules
      pub ids : IsAscending before.policy_ids → IsAscending after.policy_ids

    Kept-parsed :
        (m : ModuleManifest) (r : ModuleRecord) (relative normalized : String)
        (parsed : Result String PolicySet) (s : Compiling E × List String)
        → Kept s.0 (parsed_policies host C E P m r relative normalized parsed s).0
    unfolding parsed_policies
    Kept-parsed m r relative normalized (err e) (s, ids) = record { modules = refl; ids = λ h. h }
    Kept-parsed m r relative normalized (ok set) (s, ids) =
        let before : Claimed = record {
          module_policy_ids = ids;
          all_policy_ids = s.policy_ids;
          diagnostics = s.diagnostics;
        } in
        let c = validate_module_policies r relative set before in
        let g =
          Grows-aggregate host C E P (keep (λ p. p.is_static) set.policies)
            (record s { policy_ids = c.all_policy_ids; diagnostics = c.diagnostics }) in
        record {
          modules = g.modules;
          ids = λ h.
              subst IsAscending (sym g.ids) (module_policies-IsAscending r relative set before h);
        }

    -- The policy files of one module, and the module.
    pub record Files (m : ModuleManifest) (r : ModuleRecord) (files : List String)
        (before after : Compiling E) : Type 0 where
      pub quiet :
          has_error after.diagnostics ≡ false
          → (has_error before.diagnostics ≡ false) × All (IsCompiled m r) files
      pub kept : Kept before after

    pub Files-of_policies :
        (m : ModuleManifest) (r : ModuleRecord) (files : List String)
        (s t : Compiling E × List String)
        → compile_policies host C E P m r files s ≡ ok t
        → Files m r files s.0 t.0
    unfolding compile_policies
    Files-of_policies m r [] s t h =
        subst (λ x. Files m r [] s.0 x.0) (ok-injective h)
          (record { quiet = λ q. (q, tt); kept = record { modules = refl; ids = λ a. a } })
    Files-of_policies m r (relative ∷ rest) s t h =
        let (source, e, h1) = >>=-eq-ok (read_utf8 host (input_path m relative)) _ h in
        let normalized = normalize_text source in
        let parsed = C.parse_policies normalized in
        let next = parsed_policies host C E P m r relative normalized parsed s in
        let later = Files-of_policies m r rest next t h1 in
        let kept = Kept-parsed m r relative normalized parsed s in
        record {
          quiet = λ q.
              let (q', all) = later.quiet q in
              let file = File-of_quiet m r relative normalized parsed s q' in
              (
                file.quiet,
                (
                  record {
                    source = source;
                    set = file.set;
                    read = e;
                    parsed = file.same;
                    static = file.static;
                    claimed = file.claimed;
                  },
                  all,
                ),
              );
          kept = record {
            modules = later.kept.modules ∙ kept.modules;
            ids = λ a. later.kept.ids (kept.ids a);
          };
        }
