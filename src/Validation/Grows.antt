-- ===== src/Validation/Grows.antt =====
-- The stages of the loop of `compile_manifest` only add to what it has collected.
use treetop_bundle.Validation.Checks.{parse_schema_fragment, labels_from_json_str, read_utf8}
use treetop_bundle.Validation.Errors.{has_error-append}
use treetop_bundle.Manifest.Module.{input_path, ModuleManifest}
use treetop_bundle.Error.{
  map_err, >>=-eq-ok, validation, ok-injective, err, BundleError, ok, Result,
}
use treetop_bundle.Validation.Policy.{PolicySet, Policy}
use treetop_bundle.Diagnostic.{has_error, Diagnostic}
use treetop_bundle.Validation.Compile.{
  aggregate_policies, added_policy, parsed_schema, compile_labels, parsed_labels, compile_schemas,
  Printing, Compiling,
}
use treetop_bundle.Base.{
  true, subst, ◌<>◌, arith, ◌∷◌, String, false, ◌++◌, ◌≡◌, ◌∙◌, List, refl, [],
}
use treetop_bundle.Validation.Cedar.{Cedar}
use treetop_bundle.Labels.Rules.{LabelRule, Engine}
use treetop_bundle.Host.{Host}

pub quiet_before :
    (ds more : List Diagnostic) → has_error (ds ++ more) ≡ false → has_error ds ≡ false
quiet_before ds more h = ground (arith, h, has_error-append ds more)

module _ {E : Engine} where
  -- One stage: diagnostics are added, modules stay, and identifiers stay.
  pub record Grows (before after : Compiling E) : Type 0 where
    pub quiet : has_error after.diagnostics ≡ false → has_error before.diagnostics ≡ false
    pub modules : after.modules ≡ before.modules
    pub ids : after.policy_ids ≡ before.policy_ids

  pub Grows-refl : (s : Compiling E) → Grows s s
  Grows-refl s = record { quiet = λ h. h; modules = refl; ids = refl }

  pub Grows-trans : (s t u : Compiling E) → Grows s t → Grows t u → Grows s u
  Grows-trans s t u g h = record {
    quiet = λ q. g.quiet (h.quiet q);
    modules = h.modules ∙ g.modules;
    ids = h.ids ∙ g.ids;
  }

  Grows-report :
      (s : Compiling E) (ds : List Diagnostic)
      → Grows s (record s { diagnostics = s.diagnostics ++ ds })
  Grows-report s ds = record { quiet = quiet_before s.diagnostics ds; modules = refl; ids = refl }

module _ (host : Host) (C : Cedar) (E : Engine) (P : Printing) where
  Grows-added :
      (r : Result String PolicySet) (s : Compiling E) → Grows s (added_policy host C E P r s)
  unfolding added_policy
  Grows-added (ok set) s = record { quiet = λ h. h; modules = refl; ids = refl }
  Grows-added (err e) s = record {
    quiet = quiet_before s.diagnostics _;
    modules = refl;
    ids = refl;
  }

  pub Grows-aggregate :
      (policies : List Policy) (s : Compiling E)
      → Grows s (aggregate_policies host C E P policies s)
  unfolding aggregate_policies
  Grows-aggregate [] s = Grows-refl s
  Grows-aggregate (policy ∷ policies) s =
      let r =
        C.add_policy s.aggregate_policy_set
          ("treetop-bundle-" <> P.show_number s.aggregate_policy_index) policy in
      Grows-trans s (added_policy host C E P r s) _ (Grows-added r s)
        (Grows-aggregate policies (added_policy host C E P r s))

  Grows-parsed_schema :
      (m : ModuleManifest) (relative : String)
      (r : Result String (C.SchemaFragment × List Diagnostic)) (s t : Compiling E)
      → parsed_schema host C E P m relative r s ≡ ok t
      → Grows s t
  unfolding parsed_schema
  Grows-parsed_schema m relative (err e) s t h =
      subst (λ x. Grows s x) (ok-injective h) (Grows-report s _)
  Grows-parsed_schema m relative (ok (fragment, warnings)) s t h =
      let (json, _, h') = >>=-eq-ok (map_err _ (C.fragment_to_json fragment)) _ h in
      subst (λ x. Grows s x) (ok-injective h')
        (record { quiet = quiet_before s.diagnostics _; modules = refl; ids = refl })

  pub Grows-schemas :
      (m : ModuleManifest) (files : List String) (s t : Compiling E)
      → compile_schemas host C E P m files s ≡ ok t
      → Grows s t
  unfolding compile_schemas
  Grows-schemas m [] s t h = subst (λ x. Grows s x) (ok-injective h) (Grows-refl s)
  Grows-schemas m (relative ∷ rest) s t h =
      let (source, _, h1) = >>=-eq-ok (read_utf8 host (input_path m relative)) _ h in
      let marked : Compiling E = record s { has_schema = true } in
      let (u, e, h2) =
        >>=-eq-ok (parsed_schema host C E P m relative (parse_schema_fragment C source) marked) _
          h1 in
      let first : Grows marked u = Grows-parsed_schema m relative _ marked u e in
      let later : Grows u t = Grows-schemas m rest u t h2 in
      record {
        quiet = λ q. first.quiet (later.quiet q);
        modules = later.modules ∙ first.modules;
        ids = later.ids ∙ first.ids;
      }

  Grows-parsed_labels :
      (m : ModuleManifest) (relative : String) (r : Result BundleError (List (LabelRule E)))
      (s t : Compiling E)
      → parsed_labels host C E P m relative r s ≡ ok t
      → Grows s t
  unfolding parsed_labels
  Grows-parsed_labels m relative (ok labels) s t h =
      subst (λ x. Grows s x) (ok-injective h)
        (record { quiet = quiet_before s.diagnostics _; modules = refl; ids = refl })
  Grows-parsed_labels m relative (err (validation ds)) s t h =
      subst (λ x. Grows s x) (ok-injective h) (Grows-report s _)
  Grows-parsed_labels m relative (err e) s t h = absurd cc

  pub Grows-labels :
      (m : ModuleManifest) (files : List String) (s t : Compiling E)
      → compile_labels host C E P m files s ≡ ok t
      → Grows s t
  unfolding compile_labels
  Grows-labels m [] s t h = subst (λ x. Grows s x) (ok-injective h) (Grows-refl s)
  Grows-labels m (relative ∷ rest) s t h =
      let (source, _, h1) = >>=-eq-ok (read_utf8 host (input_path m relative)) _ h in
      let (u, e, h2) =
        >>=-eq-ok (parsed_labels host C E P m relative (labels_from_json_str C E source) s) _ h1 in
      Grows-trans s u t (Grows-parsed_labels m relative _ s u e) (Grows-labels m rest u t h2)
