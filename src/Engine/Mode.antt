-- ===== src/Engine/Mode.antt =====
-- The mode of a prepared engine.
use treetop_bundle.Error.{◌>>=◌, ok-injective, map_err, >>=-eq-ok, ok}
use treetop_bundle.Json.{Json}
use treetop_bundle.Validation.ArchiveParts.{BundleParts}
use treetop_bundle.Engine.Prepare.{
  has_role_ordinary, bundle_labels_json, new_stores, enforcing_engine,
  prepare_engine_with_policy_stores, prepare_engine, prepare_engine_with_layout, install_labels,
  base_engine, Core,
}
use treetop_bundle.Engine.{
  schema_enforcing, schema_free, is_enforcing, PreparedEngine, with_label_registry, PolicyEngine,
  CoreTypes,
}
use treetop_bundle.Archive.Encode.{Writer}
use treetop_bundle.Signing.Crypto.{Crypto}
use treetop_bundle.Labels.Rules.{Runtime, Engine}
use treetop_bundle.Validation.Cedar.{Cedar}
use treetop_bundle.Host.{Host}
use treetop_bundle.Base.{
  keep, inr, sym, inl, ◌∙◌, ◌⊎◌, ap, String, Bool, ◌≡◌, refl, true, false, Option, none, some, List,
  [], ◌∷◌,
}

-- Whether there is a schema.
abbrev pub is_given : {A : Type 0} → Option A → Bool
is_given none = false
is_given (some a) = true

module _ (host : Host) (C : Cedar) (E : Engine) (K : Crypto) (W : Writer) (T : CoreTypes)
    (Free Enforcing : PolicyEngine T) (core : Core C E T Free Enforcing) where
  base_engine-mode :
      (policies : String) (schema : Option Json) (layout : Option core.Layout)
      (engine : PreparedEngine T Free Enforcing)
      → base_engine host C E K W T Free Enforcing core policies schema layout ≡ ok engine
      → is_enforcing T Free Enforcing engine ≡ is_given schema
  unfolding base_engine
  base_engine-mode policies (some value) layout engine h =
      let (schema, _, h1) = >>=-eq-ok (map_err _ (C.schema_from_json value)) _ h in
      let (e, _, h2) =
        >>=-eq-ok
          (map_err _ (enforcing_engine host C E K W T Free Enforcing core policies schema layout)) _
          h1 in
      ap (is_enforcing T Free Enforcing) (sym (ok-injective h2))
  base_engine-mode policies none (some layout) engine h =
      let (e, _, h1) =
        >>=-eq-ok (map_err _ (core.new_from_str_with_policy_stores policies layout)) _ h in
      ap (is_enforcing T Free Enforcing) (sym (ok-injective h1))
  base_engine-mode policies none none engine h =
      let (e, _, h1) = >>=-eq-ok (map_err _ (core.new_from_str policies)) _ h in
      ap (is_enforcing T Free Enforcing) (sym (ok-injective h1))

  with_label_registry-mode :
      (engine : PreparedEngine T Free Enforcing) (registry : T.LabelRegistry)
      → is_enforcing T Free Enforcing (with_label_registry T Free Enforcing engine registry)
        ≡ is_enforcing T Free Enforcing engine
  unfolding with_label_registry
  with_label_registry-mode (schema_free e) registry = refl
  with_label_registry-mode (schema_enforcing e) registry = refl

  install_labels-mode :
      (parts : BundleParts E) (labelers : List (Runtime E))
      (before after : PreparedEngine T Free Enforcing)
      → install_labels host C E K W T Free Enforcing core parts labelers before ≡ ok after
      → is_enforcing T Free Enforcing after ≡ is_enforcing T Free Enforcing before
  unfolding install_labels
  install_labels-mode parts [] before after h =
      ap (is_enforcing T Free Enforcing) (sym (ok-injective h))
  install_labels-mode parts (l ∷ ls) before after h =
      let (json, _, h1) =
        >>=-eq-ok (bundle_labels_json host C E K W T Free Enforcing core parts) _ h in
      let (registry, _, h2) = >>=-eq-ok (map_err _ (core.build_registry _ (l ∷ ls))) _ h1 in
      ap (is_enforcing T Free Enforcing) (sym (ok-injective h2))
      ∙ with_label_registry-mode before registry

  layout-mode :
      (parts : BundleParts E) (layout : Option core.Layout)
      (engine : PreparedEngine T Free Enforcing)
      → prepare_engine_with_layout host C E K W T Free Enforcing core parts layout ≡ ok engine
      → is_enforcing T Free Enforcing engine ≡ is_given parts.schema_json
  unfolding prepare_engine_with_layout
  layout-mode parts layout engine h =
      let (before, h1, h2) =
        >>=-eq-ok
          (base_engine host C E K W T Free Enforcing core parts.policies parts.schema_json layout) _
          h in
      install_labels-mode parts _ before engine h2
      ∙ base_engine-mode parts.policies parts.schema_json layout before h1

  -- An engine that is prepared from a bundle, monolithic or with policy stores and whatever its
  -- labels, enforces a schema exactly when the bundle has one.
  pub prepare_engine-mode :
      (parts : BundleParts E) (engine : PreparedEngine T Free Enforcing)
      → (prepare_engine host C E K W T Free Enforcing core parts ≡ ok engine)
        ⊎ (prepare_engine_with_policy_stores host C E K W T Free Enforcing core parts ≡ ok engine)
      → is_enforcing T Free Enforcing engine ≡ is_given parts.schema_json
  unfolding prepare_engine prepare_engine_with_policy_stores
  prepare_engine-mode parts engine (inl h) = layout-mode parts none engine h
  prepare_engine-mode parts engine (inr h) =
      let (stores, _, h1) =
        >>=-eq-ok
          (map_err _
            (new_stores host C E K W T Free Enforcing core (keep has_role_ordinary parts.modules)))
          _ h in
      let (layout, _, h2) = >>=-eq-ok (map_err _ (core.new_layout stores >>= _)) _ h1 in
      layout-mode parts (some layout) engine h2
