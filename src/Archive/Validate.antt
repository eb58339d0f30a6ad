-- ===== src/Archive/Validate.antt =====
-- `validate_decoded`, `BundleArchive::validate` and `BundleArchive::resign`.
use treetop_bundle.Base.{
  ℕ, String, Bool, true, false, not, ◌&&◌, Option, none, some, List, [], ◌∷◌, length, nat_beq, ◌==◌,
}
use treetop_bundle.Diagnostic.{text, say}
use treetop_bundle.Error.{BundleError, archive, Result, ok, err, ◌>>=◌, ◌>>◌, map_err, refuse_if}
use treetop_bundle.Host.{Host}
use treetop_bundle.Json.{Json}
use treetop_bundle.Labels.Rules.{Engine}
use treetop_bundle.Signing.Crypto.{Bytes, Crypto, BundleSignature, validate_format, sign_manifest}
use treetop_bundle.Signing.Trust.{TrustStore, verify}
use treetop_bundle.Validation.ArchiveParts.{BundleParts, validate_archive_parts}
use treetop_bundle.Validation.Cedar.{Cedar, JsonError}
use treetop_bundle.Validation.Checks.{labels_from_json_str}
use treetop_bundle.Validation.Compile.{Printing}
use treetop_bundle.Archive.Limits.{ArchiveLimits}
use treetop_bundle.Archive.Manifest.{ArtifactRecord, ArchiveManifest, validate_manifest}
use treetop_bundle.Archive.Decode.{
  Codec, Decoded, panics, decoded, DecodedArchive, decode_archive, manifest_path, signature_path,
  policies_path, schema_path, labels_path,
}
use treetop_bundle.Archive.Encode.{
  Writer, sha256_hex, compute_bundle_id, artifact_entries, canonical_json_bytes, signature_json,
  encode_archive,
}

-- `SignaturePolicy`
pub data SignaturePolicy : Type 0 where
  allow_unsigned required : SignaturePolicy

-- `VerifiedSignature`
pub record VerifiedSignature : Type 0 where
  pub signed : Bool
  pub key_id : Option String

-- What `serde_json::from_str` reads of the two records.
pub record Reader : Type 0 where
  pub manifest_from_json : String → Result String ArchiveManifest
  pub signature_from_json : String → Result String BundleSignature

-- `parse_json`, for a decoder of one type.
unfoldable pub parse_json :
    {A : Type 0} → Host → (String → Result String A) → String → Bytes → Result BundleError A
parse_json host decoder path bytes = do
  source ←
      map_err (λ e. archive (text path ∷ text " is not UTF-8: " ∷ text e ∷ []))
        (host.from_utf8 bytes)
  map_err (λ e. archive (text path ∷ text " is invalid JSON: " ∷ text e ∷ [])) (decoder source)

-- `.as_ref().map(..).transpose()`
abbrev pub transposed :
    {A B : Type 0} → (A → Result BundleError B) → Option A → Result BundleError (Option B)
transposed f none = ok none
transposed f (some a) = f a >>= λ b. ok (some b)

-- `utf8`
unfoldable pub utf8 : Host → String → Bytes → Result BundleError String
utf8 host path bytes =
    map_err (λ e. archive (text path ∷ text " is not UTF-8: " ∷ text e ∷ [])) (host.from_utf8 bytes)

module _ (host : Host) (C : Cedar) (E : Engine) (P : Printing) (K : Crypto) (W : Writer)
    (R : Reader) where
  -- Signed or not, by which key, under the policy.
  unfoldable pub verified_signature :
      SignaturePolicy
      → TrustStore K
      → Bool
      → Bytes
      → Option BundleSignature
      → Result BundleError VerifiedSignature
  unfolding verify
  verified_signature policy store true manifest (some signature) = do
    id ← verify K store manifest signature
    ok (record { signed = true; key_id = some id })
  verified_signature policy store false manifest (some signature) =
      ok (record { signed = true; key_id = some signature.key_id })
  verified_signature required store verifies manifest none = err (archive (say "signature_missing"))
  verified_signature allow_unsigned store verifies manifest none =
      ok (record { signed = false; key_id = none })

  unfoldable pub check_format : Option BundleSignature → Result BundleError (Unit {0})
  unfolding validate_format
  check_format none = ok tt
  check_format (some signature) = validate_format K signature

  unfoldable pub matches_entry : ArtifactRecord → String × Bytes → Bool
  unfolding sha256_hex
  matches_entry r (path, contents) =
      r.path == path && (nat_beq r.size (length contents) && r.sha256 == sha256_hex K W contents)

  -- The loop over the records and the entries, as far as both go.
  unfoldable pub check_artifacts :
      List ArtifactRecord → List (String × Bytes) → Result BundleError (Unit {0})
  unfolding matches_entry
  check_artifacts [] entries = ok tt
  check_artifacts (r ∷ records) [] = ok tt
  check_artifacts (r ∷ records) (e ∷ entries) = do
    refuse_if (not (matches_entry r e))
        (archive (text "artifact hash or size mismatch for " ∷ text e.0 ∷ []))
    check_artifacts records entries

  abbrev pub value_from_json : String → Result String Json
  value_from_json source = map_err (λ (e : JsonError). e.message) (C.value_from_json source)

  abbrev pub Validated : Type 0
  Validated = ArchiveManifest × (VerifiedSignature × BundleParts E)

  -- The artifacts and the identifier of the manifest against the entries.
  unfoldable pub check_payload : DecodedArchive → ArchiveManifest → Result BundleError (Unit {0})
  unfolding check_artifacts artifact_entries compute_bundle_id
  check_payload d manifest = do
    refuse_if (not (nat_beq (length manifest.artifacts) (length (artifact_entries d))))
        (archive (say "manifest artifact list does not match archive entries"))
    check_artifacts manifest.artifacts (artifact_entries d)
    refuse_if (not (manifest.bundle_id == compute_bundle_id K W manifest))
        (archive (say "manifest bundle_id does not match its canonical payload"))

  -- The content of the entries, read and checked.
  unfoldable pub decoded_parts :
      DecodedArchive → ArchiveManifest → Result BundleError (BundleParts E)
  unfolding parse_json utf8 labels_from_json_str validate_archive_parts
  decoded_parts d manifest = do
    policies ← utf8 host policies_path d.policies
    schema ← transposed (parse_json host value_from_json schema_path) d.schema
    labels_source ← utf8 host labels_path d.labels
    labels ← labels_from_json_str C E labels_source
    validate_archive_parts C E P.show_json manifest.name manifest.modules policies schema labels
        manifest.policy_ids

  -- `validate_decoded`
  unfoldable pub validate_decoded :
      DecodedArchive → SignaturePolicy → TrustStore K → Bool → Result BundleError Validated
  unfolding parse_json check_format verified_signature validate_manifest check_payload decoded_parts
  validate_decoded d policy store verifies = do
    manifest ← parse_json host R.manifest_from_json manifest_path d.manifest
    signature ← transposed (parse_json host R.signature_from_json signature_path) d.signature
    check_format signature
    verified ← verified_signature policy store verifies d.manifest signature
    validate_manifest host manifest
    check_payload d manifest
    parts ← decoded_parts d manifest
    ok (manifest, (verified, parts))

  -- `ValidatedBundle`
  pub record ValidatedBundle : Type 0 where
    pub format_version : ℕ
    pub bundle_id : String
    pub parts : BundleParts E
    pub archive_sha256 : String
    pub compressed_size : ℕ
    pub signature : VerifiedSignature

  -- The archive that decoding gives; `none` where it panics.
  unfoldable pub validate_bytes :
      Bytes
      → SignaturePolicy
      → TrustStore K
      → Bool
      → Decoded
      → Result BundleError (Option ValidatedBundle)
  unfolding validate_decoded sha256_hex
  validate_bytes bytes policy store verifies panics = ok none
  validate_bytes bytes policy store verifies (decoded d) = do
    validated ← validate_decoded d policy store verifies
    ok (
        some (record {
          format_version = validated.0.format_version;
          bundle_id = validated.0.bundle_id;
          parts = validated.1.1;
          archive_sha256 = sha256_hex K W bytes;
          compressed_size = length bytes;
          signature = validated.1.0;
        }))

  -- `BundleArchive::validate`
  unfoldable pub validate :
      Codec
      → Bytes
      → SignaturePolicy
      → TrustStore K
      → ArchiveLimits
      → Result BundleError (Option ValidatedBundle)
  unfolding decode_archive validate_bytes
  validate codec bytes policy store limits =
      decode_archive codec bytes limits >>= validate_bytes bytes policy store true

  unfoldable pub resign_decoded : Codec → K.SecretKey → Decoded → Result BundleError (Option Bytes)
  unfolding validate_decoded canonical_json_bytes signature_json sign_manifest encode_archive
      artifact_entries
  resign_decoded codec key panics = ok none
  resign_decoded codec key (decoded d) = do
    _ ← validate_decoded d allow_unsigned [] false
    let signature = canonical_json_bytes K W (signature_json (sign_manifest K key d.manifest))
    bytes ← encode_archive K W codec d.manifest (some signature) (artifact_entries d)
    ok (some bytes)

  -- `BundleArchive::resign`
  unfoldable pub resign :
      Codec → Bytes → K.SecretKey → ArchiveLimits → Result BundleError (Option Bytes)
  unfolding decode_archive resign_decoded
  resign codec bytes key limits = decode_archive codec bytes limits >>= resign_decoded codec key
