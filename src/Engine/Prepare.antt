-- ===== src/Engine/Prepare.antt =====
-- src/archive.rs: the engine of a validated bundle (`ValidatedBundle::prepare_engine`).
use treetop_bundle.Validation.ArchiveParts.{BundleParts}
use treetop_bundle.Json.{Json}
use treetop_bundle.Archive.Encode.{labels_json, sha256_hex, canonical_json_bytes, Writer}
use treetop_bundle.Signing.Crypto.{Crypto}
use treetop_bundle.Engine.{
  schema_free, schema_enforcing, PreparedEngine, with_label_registry, Result, PolicyEngine,
  CoreTypes,
}
use treetop_bundle.Validation.Cedar.{Cedar}
use treetop_bundle.Host.{global, ordinary, Host}
use treetop_bundle.Validation.Ownership.{ModuleRecord}
use treetop_bundle.Error.{◌>>=◌, serialization, map_err, ok, validation, BundleError}
use treetop_bundle.Labels.Rules.{Runtime, LabelRule, Engine}
use treetop_bundle.Base.{
  keep, map, if◌then◌else◌, String, Bool, true, false, Option, none, some, List, [], ◌∷◌, ◌++◌,
}
use treetop_bundle.Diagnostic.{say, error}

-- Core's constructors of engines, stores and registries, with the texts of their errors.
pub record Core (C : Cedar) (E : Engine) (T : CoreTypes) (Free Enforcing : PolicyEngine T)
    : Type 1 where
  pub StoreConfig : Type 0
  pub Layout : Type 0
  -- `PolicyStoreConfig::new`, `PolicyStoreLayout::new`, `with_global_policy_ids`
  pub new_store : String → String → Result String StoreConfig
  pub new_layout : List StoreConfig → Result String Layout
  pub with_global_policy_ids : Layout → List String → Result String Layout
  -- `PolicyEngine::new_from_str` and its variants
  pub new_from_str : String → Result String Free.Engine
  pub new_from_str_with_policy_stores : String → Layout → Result String Free.Engine
  pub new_from_str_with_schema : String → C.Schema → Result String Enforcing.Engine
  pub new_from_str_with_schema_and_policy_stores :
      String → C.Schema → Layout → Result String Enforcing.Engine
  -- `LabelRegistryBuilder::versioned(version)`, `add_labeler` of each and `build()`
  pub build_registry : String → List (Runtime E) → Result String T.LabelRegistry

-- `policy_engine_error`
unfoldable pub policy_engine_error : String → BundleError
policy_engine_error e = validation (error "policy.engine_prepare" (say e) ∷ [])

-- `LabelSet::to_labelers`
unfoldable pub to_labelers : (E : Engine) → List (LabelRule E) → List (Runtime E)
to_labelers E rules = map (λ rule. rule.runtime) rules

unfoldable pub has_role_ordinary : ModuleRecord → Bool
has_role_ordinary m = elim m.role [ ordinary ↦ true | global ↦ false ]

-- `.filter(role == Global).flat_map(policy_ids)`
unfoldable pub global_policy_ids : List ModuleRecord → List String
unfolding has_role_ordinary
global_policy_ids [] = []
global_policy_ids (m ∷ ms) =
    let rest = global_policy_ids ms in if has_role_ordinary m then rest else m.policy_ids ++ rest

module _ (host : Host) (C : Cedar) (E : Engine) (K : Crypto) (W : Writer) (T : CoreTypes)
    (Free Enforcing : PolicyEngine T) (core : Core C E T Free Enforcing) where
  -- `ValidatedBundle::labels_json`
  unfoldable pub bundle_labels_json : BundleParts E → Result BundleError String
  unfolding canonical_json_bytes labels_json
  bundle_labels_json parts =
      map_err (λ e. serialization (say e))
        (host.from_utf8 (canonical_json_bytes K W (labels_json K W E parts.labels)))

  -- The engine without labels, by the schema and the layout.
  unfoldable pub enforcing_engine :
      String → C.Schema → Option core.Layout → Result String Enforcing.Engine
  enforcing_engine policies schema (some layout) =
      core.new_from_str_with_schema_and_policy_stores policies schema layout
  enforcing_engine policies schema none = core.new_from_str_with_schema policies schema

  unfoldable pub base_engine :
      String
      → Option Json
      → Option core.Layout
      → Result BundleError (PreparedEngine T Free Enforcing)
  unfolding policy_engine_error enforcing_engine
  base_engine policies (some value) layout = do
    schema ←
        map_err (λ e. validation (error "schema.aggregate_invalid" (say e) ∷ []))
          (C.schema_from_json value)
    engine ← map_err policy_engine_error (enforcing_engine policies schema layout)
    ok (schema_enforcing engine)
  base_engine policies none (some layout) = do
    engine ← map_err policy_engine_error (core.new_from_str_with_policy_stores policies layout)
    ok (schema_free engine)
  base_engine policies none none = do
    engine ← map_err policy_engine_error (core.new_from_str policies)
    ok (schema_free engine)

  -- The registry of the labelers, where there are any.
  unfoldable pub install_labels :
      BundleParts E
      → List (Runtime E)
      → PreparedEngine T Free Enforcing
      → Result BundleError (PreparedEngine T Free Enforcing)
  unfolding bundle_labels_json sha256_hex policy_engine_error with_label_registry
  install_labels parts [] engine = ok engine
  install_labels parts (l ∷ ls) engine = do
    source ← bundle_labels_json parts
    registry ←
        map_err policy_engine_error
          (core.build_registry (sha256_hex K W (W.text_bytes source)) (l ∷ ls))
    ok (with_label_registry T Free Enforcing engine registry)

  -- `ValidatedBundle::prepare_engine_with_layout`
  unfoldable pub prepare_engine_with_layout :
      BundleParts E → Option core.Layout → Result BundleError (PreparedEngine T Free Enforcing)
  unfolding base_engine install_labels to_labelers
  prepare_engine_with_layout parts layout = do
    engine ← base_engine parts.policies parts.schema_json layout
    install_labels parts (to_labelers E parts.labels) engine

  -- `ValidatedBundle::prepare_engine`
  unfoldable pub prepare_engine :
      BundleParts E → Result BundleError (PreparedEngine T Free Enforcing)
  unfolding prepare_engine_with_layout
  prepare_engine parts = prepare_engine_with_layout parts none

  -- One store for each ordinary module, by its name and namespace.
  unfoldable pub new_stores : List ModuleRecord → Result String (List core.StoreConfig)
  new_stores [] = ok []
  new_stores (m ∷ ms) = do
    store ← core.new_store m.name m.namespace
    stores ← new_stores ms
    ok (store ∷ stores)

  -- `ValidatedBundle::prepare_engine_with_policy_stores`
  unfoldable pub prepare_engine_with_policy_stores :
      BundleParts E → Result BundleError (PreparedEngine T Free Enforcing)
  unfolding new_stores has_role_ordinary global_policy_ids policy_engine_error
      prepare_engine_with_layout
  prepare_engine_with_policy_stores parts = do
    stores ← map_err policy_engine_error (new_stores (keep has_role_ordinary parts.modules))
    layout ← map_err policy_engine_error (do
      layout ← core.new_layout stores
      core.with_global_policy_ids layout (global_policy_ids parts.modules))
    prepare_engine_with_layout parts (some layout)
