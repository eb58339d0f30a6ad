-- ===== src/Archive/Encode.antt =====
-- Canonical JSON, the identifier of a bundle and the writing of an archive.
use treetop_bundle.Base.{
  String, Option, none, some, List, [], ◌∷◌, ◌++◌, map, length, ◌==◌, str_ltb, if◌then◌else◌,
}
use treetop_bundle.Diagnostic.{text}
use treetop_bundle.Error.{BundleError, archive, Result, ◌>>=◌, map_err}
use treetop_bundle.Host.{ModuleRole, ordinary, global}
use treetop_bundle.Json.{
  natural, Json, null, bool, number, string, array, object, Items, nil, item, Fields, end, field,
}
use treetop_bundle.Labels.Rules.{Engine, LabelPattern, LabelTarget, LabelRule, rule_target}
use treetop_bundle.Manifest.Module.{supported_version}
use treetop_bundle.Signing.Crypto.{Bytes, Crypto, BundleSignature, hex, sign_manifest}
use treetop_bundle.Validation.Ownership.{ModuleRecord}
use treetop_bundle.Validation.ArchiveParts.{BundleParts}
use treetop_bundle.Archive.Manifest.{
  GeneratorRecord, ArtifactRecord, ArchiveManifest, package_version, treetop_core_version,
  cedar_version,
}
use treetop_bundle.Archive.Decode.{
  Codec, DecodedArchive, manifest_path, signature_path, policies_path, schema_path, labels_path,
}

-- The insertion of a field into a map in the order of its keys.
unfoldable pub insert_sorted : String → Json → Fields → Fields
insert_sorted k v end = field k v end
insert_sorted k v (field j w rest) =
    if j == k
    then field k v rest
    else if str_ltb k j
    then field k v (field j w rest)
    else field j w (insert_sorted k v rest)

-- `sort_json`
unfoldable mutual
  unfolding insert_sorted

  pub sort_json : Json → Json
  sort_json (object fields) = object (sort_fields end fields)
  sort_json (array items) = array (sort_items items)
  sort_json null = null
  sort_json (bool b) = bool b
  sort_json (number n) = number n
  sort_json (string s) = string s

  pub sort_fields : Fields → Fields → Fields
  sort_fields sorted end = sorted
  sort_fields sorted (field k v rest) = sort_fields (insert_sorted k (sort_json v) sorted) rest

  pub sort_items : Items → Items
  sort_items nil = nil
  sort_items (item v rest) = item (sort_json v) (sort_items rest)

unfoldable pub items_of : List Json → Items
items_of [] = nil
items_of (v ∷ vs) = item v (items_of vs)

unfoldable pub texts_json : List String → Json
unfolding items_of
texts_json texts = array (items_of (map string texts))

-- The serialisation that the records derive: an object of their fields, in order.
unfoldable pub role_json : ModuleRole → Json
role_json ordinary = string "ordinary"
role_json global = string "global"

unfoldable pub module_json : ModuleRecord → Json
unfolding texts_json role_json
module_json m = object (
    field "name" (string m.name) (
      field "namespace" (string m.namespace) (
        field "imports" (texts_json m.imports)
          (field "role" (role_json m.role) (field "policy_ids" (texts_json m.policy_ids) end)))))

unfoldable pub artifact_json : ArtifactRecord → Json
artifact_json a = object (
    field "path" (string a.path)
      (field "size" (number (natural a.size)) (field "sha256" (string a.sha256) end)))

unfoldable pub generator_json : GeneratorRecord → Json
generator_json g = object (
    field "treetop_bundle" (string g.treetop_bundle_version)
      (field "treetop_core" (string g.treetop_core) (field "cedar" (string g.cedar) end)))

-- The fields after `bundle_id`.
unfoldable pub later_fields : ArchiveManifest → Fields
unfolding generator_json module_json texts_json artifact_json items_of
later_fields m = field "name" (string m.name) (
    field "generator" (generator_json m.generator) (
      field "modules" (array (items_of (map module_json m.modules))) (
        field "policy_ids" (texts_json m.policy_ids)
          (field "artifacts" (array (items_of (map artifact_json m.artifacts))) end))))

unfoldable pub manifest_json : ArchiveManifest → Json
unfolding later_fields
manifest_json m = object (
    field "format_version" (number (natural m.format_version))
      (field "bundle_id" (string m.bundle_id) (later_fields m)))

-- The manifest without its `bundle_id`.
unfoldable pub manifest_payload : ArchiveManifest → Json
unfolding later_fields
manifest_payload m =
    object (field "format_version" (number (natural m.format_version)) (later_fields m))

unfoldable pub signature_json : BundleSignature → Json
signature_json s = object (
    field "format_version" (number (natural s.format_version)) (
      field "algorithm" (string s.algorithm)
        (field "key_id" (string s.key_id) (field "signature" (string s.signature) end))))

-- `artifact_entries`
unfoldable pub schema_entry : Option Bytes → List (String × Bytes)
schema_entry none = []
schema_entry (some bytes) = (schema_path, bytes) ∷ []

unfoldable pub artifact_entries : DecodedArchive → List (String × Bytes)
unfolding schema_entry
artifact_entries d =
    (policies_path, d.policies) ∷ (schema_entry d.schema ++ ((labels_path, d.labels) ∷ []))

-- What the JSON library and Core write: a value's text, a label target, and the bytes of a text.
pub record Writer : Type 0 where
  pub to_vec : Json → Bytes
  pub target_json : LabelTarget → Json
  pub text_bytes : String → Bytes

module _ (K : Crypto) (W : Writer) where
  -- `canonical_json_bytes` of a value that is serialised already.
  unfoldable pub canonical_json_bytes : Json → Bytes
  unfolding sort_json
  canonical_json_bytes value = W.to_vec (sort_json value) ++ (10 ∷ [])

  -- `sha256_hex`
  unfoldable pub sha256_hex : Bytes → String
  unfolding hex
  sha256_hex bytes = hex (K.sha256 bytes)

  -- `compute_bundle_id`
  unfoldable pub compute_bundle_id : ArchiveManifest → String
  unfolding canonical_json_bytes sha256_hex manifest_payload
  compute_bundle_id m = sha256_hex (canonical_json_bytes (manifest_payload m))

  unfoldable pub pattern_json : LabelPattern → Json
  pattern_json p = object (field "name" (string p.name) (field "regex" (string p.regex) end))

  -- `LabelRule::serialize`
  unfoldable pub rule_json : (E : Engine) → LabelRule E → Json
  unfolding pattern_json items_of
  rule_json E rule = object (
      field "target" (W.target_json (rule_target E rule)) (
        field "field" (string rule.field)
          (field "patterns" (array (items_of (map pattern_json rule.patterns))) end)))

  unfoldable pub labels_json : (E : Engine) → List (LabelRule E) → Json
  unfolding rule_json items_of
  labels_json E rules = array (items_of (map (rule_json E) rules))

  unfoldable pub signature_entry : Option Bytes → List (String × Bytes)
  signature_entry none = []
  signature_entry (some bytes) = (signature_path, bytes) ∷ []

  -- `encode_archive`
  unfoldable pub encode_archive :
      Codec → Bytes → Option Bytes → List (String × Bytes) → Result BundleError Bytes
  unfolding signature_entry
  encode_archive codec manifest signature artifacts = do
    tar ←
        map_err (λ e. archive (text "tar encoding failed: " ∷ text e ∷ []))
          (codec.tar ((manifest_path, manifest) ∷ (signature_entry signature ++ artifacts)))
    map_err (λ e. archive (text "gzip encoding failed: " ∷ text e ∷ [])) (codec.gzip tar)

  unfoldable pub artifact_record : String × Bytes → ArtifactRecord
  unfolding sha256_hex
  artifact_record (path, bytes) = record {
    path = path;
    size = length bytes;
    sha256 = sha256_hex bytes;
  }

  unfoldable pub schema_bytes : Option Json → Option Bytes
  unfolding canonical_json_bytes
  schema_bytes none = none
  schema_bytes (some value) = some (canonical_json_bytes value)

  -- The artifacts of `BundleArchive::build`.
  unfoldable pub artifact_data : (E : Engine) → BundleParts E → List (String × Bytes)
  unfolding schema_entry schema_bytes labels_json canonical_json_bytes
  artifact_data E parts =
      (policies_path, W.text_bytes parts.policies)
      ∷ (schema_entry (schema_bytes parts.schema_json)
          ++ ((labels_path, canonical_json_bytes (labels_json E parts.labels)) ∷ []))

  -- The manifest of `BundleArchive::build`, whose identifier is computed last.
  unfoldable pub build_manifest : (E : Engine) → BundleParts E → ArchiveManifest
  unfolding artifact_data artifact_record compute_bundle_id
  build_manifest E parts =
      let m : ArchiveManifest = record {
        format_version = supported_version;
        bundle_id = "";
        name = parts.name;
        generator = record {
          treetop_bundle_version = package_version;
          treetop_core = treetop_core_version;
          cedar = cedar_version;
        };
        modules = parts.modules;
        policy_ids = parts.policy_ids;
        artifacts = map artifact_record (artifact_data E parts);
      } in
      record m { bundle_id = compute_bundle_id m }

  unfoldable pub signed_bytes : Option K.SecretKey → Bytes → Option Bytes
  unfolding canonical_json_bytes signature_json sign_manifest
  signed_bytes none manifest = none
  signed_bytes (some k) manifest =
      some (canonical_json_bytes (signature_json (sign_manifest K k manifest)))

  -- `BundleArchive::build`
  unfoldable pub build :
      Codec → (E : Engine) → BundleParts E → Option K.SecretKey → Result BundleError Bytes
  unfolding build_manifest canonical_json_bytes manifest_json signed_bytes encode_archive
  build codec E parts key =
      let manifest = canonical_json_bytes (manifest_json (build_manifest E parts)) in
      encode_archive codec manifest (signed_bytes key manifest) (artifact_data E parts)
