-- ===== src/Validation/Compiled.antt =====
-- What a bundle that `compile_manifest` accepts is known to satisfy.
use treetop_bundle.Validation.Recorded.{ids-compile_policies, compiled_module}
use treetop_bundle.Validation.Distinct.{AreDistinct, assigned, AreDistinct-policies}
use treetop_bundle.Validation.CompiledFiles.{Files-of_policies, module_of, HasPolicies}
use treetop_bundle.Labels.Combine.{combine}
use treetop_bundle.Validation.ArchiveParts.{BundleParts}
use treetop_bundle.Validation.Grows.{quiet_before, Grows-labels, Grows-schemas}
use treetop_bundle.Diagnostic.{Diagnostic, has_error}
use treetop_bundle.Error.{ok-injective, >>=-eq-ok, ok, Result, BundleError}
use treetop_bundle.Validation.Compile.{
  combined_labels, check_aggregate, initial, compile_modules, finish_compile, compile_manifest,
  compile_labels, compile_schemas, compile_module, Compiling, compile_policies, Printing,
}
use treetop_bundle.Labels.Rules.{LabelRule, Engine}
use treetop_bundle.Validation.Cedar.{Cedar}
use treetop_bundle.Host.{Host}
use treetop_bundle.Manifest.Bundle.{BundleManifest, ModuleSelection}
use mathlib.Core.List.{append_assoc, append-nil}
use treetop_bundle.Base.{
  inr, inl, Bool-cases, sym, ◌∙◌, arith, false, subst, IsAscending, ap, All, ◌≡◌, ◌++◌, map, refl,
  [], List, ◌∷◌,
}

module _ (host : Host) (C : Cedar) (E : Engine) (P : Printing) where
  -- A run of the loop over modules.
  record Modules (selections : List ModuleSelection) (before after : Compiling E) : Type 0 where
    pub quiet :
        has_error after.diagnostics ≡ false
        → (has_error before.diagnostics ≡ false) × All (HasPolicies host C) selections
    pub added : after.modules ≡ before.modules ++ map (compiled_module host C) selections
    pub ids : IsAscending before.policy_ids → IsAscending after.policy_ids
    pub distinct :
        has_error after.diagnostics ≡ false
        → AreDistinct (assigned before.modules) before.policy_ids
        → AreDistinct (assigned after.modules) after.policy_ids

  Modules-of_one :
      (selected : ModuleSelection) (s t : Compiling E)
      → compile_module host C E P selected s ≡ ok t
      → Modules (selected ∷ []) s t
  unfolding compile_module
  Modules-of_one selected s t h =
      let m = selected.manifest in
      let r = module_of selected in
      let (c, h1, k1) = >>=-eq-ok (compile_policies host C E P m r m.policies (s, [])) _ h in
      let (u, h2, k2) = >>=-eq-ok (compile_schemas host C E P m m.schemas c.0) _ k1 in
      let (v, h3, k3) = >>=-eq-ok (compile_labels host C E P m m.labels u) _ k2 in
      let files = Files-of_policies host C E P m r m.policies (s, []) c h1 in
      let schemas = Grows-schemas host C E P m m.schemas c.0 u h2 in
      let labels = Grows-labels host C E P m m.labels u v h3 in
      let modules : v.modules ≡ s.modules =
        labels.modules ∙ (schemas.modules ∙ files.kept.modules) in
      subst (λ x. Modules (selected ∷ []) s x) (ok-injective k3)
        (record {
          quiet = λ q.
              let (before, all) = files.quiet (schemas.quiet (labels.quiet q)) in
              (before, (all, tt));
          added =
              ap (λ l. v.modules ++ (record r { policy_ids = l } ∷ []))
                (ids-compile_policies host C E P m r m.policies (s, []) c h1)
              ∙ ap (λ l. l ++ (compiled_module host C selected ∷ [])) modules;
          ids = λ a. subst IsAscending (sym (labels.ids ∙ schemas.ids)) (files.kept.ids a);
          distinct = λ q d.
              let claimed =
                AreDistinct-policies host C E P m r m.policies s c s.modules h1
                  (schemas.quiet (labels.quiet q)) d in
              let same : AreDistinct (assigned (s.modules ++ (record r { policy_ids = c.1 } ∷ [])))
                  v.policy_ids =
                subst
                  (λ l.
                    AreDistinct (assigned (s.modules ++ (record r { policy_ids = c.1 } ∷ []))) l)
                  (sym (labels.ids ∙ schemas.ids)) claimed in
              subst
                (λ l.
                  AreDistinct (assigned (l ++ (record r { policy_ids = c.1 } ∷ []))) v.policy_ids)
                (sym modules) same;
        })

  Modules-of_all :
      (selections : List ModuleSelection) (s t : Compiling E)
      → compile_modules host C E P selections s ≡ ok t
      → Modules selections s t
  unfolding compile_modules
  Modules-of_all [] s t h =
      subst (λ x. Modules [] s x) (ok-injective h)
        (record {
          quiet = λ q. (q, tt);
          added = sym (append-nil s.modules);
          ids = λ a. a;
          distinct = λ q d. d;
        })
  Modules-of_all (selected ∷ rest) s t h =
      let (u, e, h1) = >>=-eq-ok (compile_module host C E P selected s) _ h in
      let first = Modules-of_one selected s u e in
      let later = Modules-of_all rest u t h1 in
      record {
        quiet = λ q.
            let (between, all) = later.quiet q in
            let (before, one) = first.quiet between in (before, (one.0, all));
        added =
            later.added
            ∙ (ap (λ l. l ++ map (compiled_module host C) rest) first.added
                ∙ append_assoc s.modules (compiled_module host C selected ∷ [])
                    (map (compiled_module host C) rest));
        ids = λ a. later.ids (first.ids a);
        distinct = λ q d. later.distinct q (first.distinct (later.quiet q).0 d);
      }

  -- The parts of a bundle that compiles.
  pub record CompiledFrom (manifest : BundleManifest) (parts : BundleParts E) : Type 0 where
    pub name : parts.name ≡ manifest.name
    pub quiet : has_error parts.diagnostics ≡ false
    pub modules : parts.modules ≡ map (compiled_module host C) manifest.modules
    pub ids : IsAscending parts.policy_ids
    pub distinct : AreDistinct (assigned parts.modules) parts.policy_ids
    pub policies : All (HasPolicies host C) manifest.modules

  CompiledFrom-of_finish :
      (manifest : BundleManifest) (s : Compiling E) (labels : List (LabelRule E))
      (ds : List Diagnostic) (parts : BundleParts E)
      → Modules manifest.modules (initial host C E P) s
      → finish_compile host C E P manifest s labels ds ≡ ok parts
      → CompiledFrom manifest parts
  unfolding finish_compile
  CompiledFrom-of_finish manifest s labels ds parts loop h =
      let checked =
        check_aggregate host C E P s labels s.has_schema (C.schema_from_json s.schema_json) in
      let all = s.diagnostics ++ (ds ++ checked.1) in
      elim (Bool-cases (has_error all)) [
        | inl e ↦ absurd (ground (arith, e, h))
        | inr e ↦
            let (_, policies) = loop.quiet (quiet_before s.diagnostics _ e) in
            let kept : BundleParts E = record {
              name = manifest.name;
              modules = s.modules;
              policies = s.policy_text;
              schema_json = checked.0;
              labels = labels;
              policy_ids = s.policy_ids;
              diagnostics = all;
            } in
            let accepted : ◌≡◌ {A = Result BundleError (BundleParts E)} (ok kept) (ok parts) =
              ground (arith, e, h) in
            subst (λ x. CompiledFrom manifest x) (ok-injective accepted)
              (record {
                name = refl;
                quiet = e;
                modules = loop.added;
                ids = loop.ids refl;
                distinct =
                    loop.distinct (quiet_before s.diagnostics _ e)
                      (record { pairs = tt; same = λ id. refl });
                policies = policies;
              })
      ]

  -- A bundle that compiles has no errors among its diagnostics and has one module for each selected
  -- one, in their order, with the identifiers of the policies of its files; the policy identifiers of
  -- the bundle ascend and are those of its modules, each of them once; and every policy file of every
  -- module was read and parsed, has no templates, and its policies have identifiers and keep to their
  -- module.
  pub compile_manifest-CompiledFrom :
      (manifest : BundleManifest) (parts : BundleParts E)
      → compile_manifest host C E P manifest ≡ ok parts
      → CompiledFrom manifest parts
  unfolding compile_manifest
  compile_manifest-CompiledFrom manifest parts h =
      let (s, e, h1) =
        >>=-eq-ok (compile_modules host C E P manifest.modules (initial host C E P)) _ h in
      let (combined, _, h2) =
        >>=-eq-ok (combined_labels host C E P (combine E s.label_sets)) _ h1 in
      CompiledFrom-of_finish manifest s combined.0 combined.1 parts
        (Modules-of_all manifest.modules (initial host C E P) s e) h2
