-- ===== src/Archive/Accepted.antt =====
-- What `BundleArchive::validate` guarantees of the bundle that it returns.
use treetop_bundle.Diagnostic.{has_error}
use treetop_bundle.Validation.Contained.{some-injective}
use treetop_bundle.Validation.Checks.{labels_from_json_str}
use treetop_bundle.Validation.Accepted.{
  validate_archive_parts-HasParts, validate_archive_parts-IsContained, IsContained,
}
use treetop_bundle.Archive.Verified.{validate_decoded_accepted, IsValidated}
use treetop_bundle.Archive.Order.{decode_archive_total, IsDecoded}
use treetop_bundle.Archive.Limits.{ArchiveLimits}
use treetop_bundle.Signing.Trust.{TrustStore}
use treetop_bundle.Validation.ArchiveParts.{BundleParts}
use treetop_bundle.Archive.Manifest.{ArchiveManifest}
use treetop_bundle.Archive.Decode.{
  labels_path, schema_path, decode_archive, policies_path, Codec, DecodedArchive,
}
use treetop_bundle.Archive.Validate.{
  validate_decoded, value_from_json, ValidatedBundle, parse_json, transposed, SignaturePolicy, utf8,
  validate_bytes, validate, decoded_parts, Reader,
}
use treetop_bundle.Archive.Encode.{sha256_hex, Writer}
use treetop_bundle.Signing.Crypto.{Bytes, Crypto}
use treetop_bundle.Validation.Compile.{Printing}
use treetop_bundle.Labels.Rules.{Engine}
use treetop_bundle.Validation.Cedar.{Cedar}
use treetop_bundle.Host.{Host}
use treetop_bundle.Base.{sym, ap, false, ◌∙◌, ◌≡◌, refl, subst, String, true, some}
use treetop_bundle.Error.{ok, >>=-eq-ok, ok-injective}

module _ (host : Host) (C : Cedar) (E : Engine) (P : Printing) (K : Crypto) (W : Writer)
    (R : Reader) where
  -- The parts were read from the entries of the archive, and they are contained in the modules.
  pub record HasContent (d : DecodedArchive) (m : ArchiveManifest) (parts : BundleParts E)
      : Type 0 where
    pub policies_read : utf8 host policies_path d.policies ≡ ok parts.policies
    pub schema_read :
        transposed (parse_json host (value_from_json host C E P K W R) schema_path) d.schema
        ≡ ok parts.schema_json
    pub labels_source : String
    pub labels_read : utf8 host labels_path d.labels ≡ ok labels_source
    pub labels_parsed : labels_from_json_str C E labels_source ≡ ok parts.labels
    pub name : parts.name ≡ m.name
    pub modules : parts.modules ≡ m.modules
    pub quiet : has_error parts.diagnostics ≡ false
    pub contained :
        IsContained C E P.show_json parts.modules parts.policies parts.schema_json parts.labels
          m.policy_ids

  pub HasContent-of_parts :
      (d : DecodedArchive) (m : ArchiveManifest) (parts : BundleParts E)
      → decoded_parts host C E P K W R d m ≡ ok parts
      → HasContent d m parts
  unfolding decoded_parts
  HasContent-of_parts d m parts h =
      let read_schema =
        transposed (parse_json host (value_from_json host C E P K W R) schema_path) d.schema in
      let (policies, read, h1) = >>=-eq-ok (utf8 host policies_path d.policies) _ h in
      let (schema, schema_read, h2) = >>=-eq-ok read_schema _ h1 in
      let (source, source_read, h3) = >>=-eq-ok (utf8 host labels_path d.labels) _ h2 in
      let (labels, parsed, h4) = >>=-eq-ok (labels_from_json_str C E source) _ h3 in
      let same =
        validate_archive_parts-HasParts C E P.show_json m.name m.modules policies schema labels
          m.policy_ids parts h4 in
      let contained =
        validate_archive_parts-IsContained C E P.show_json m.name m.modules policies schema labels
          m.policy_ids parts h4 in
      record {
        policies_read = read ∙ ap ok (sym same.policies_kept);
        schema_read = schema_read ∙ ap ok (sym same.schema_kept);
        labels_source = source;
        labels_read = source_read;
        labels_parsed = parsed ∙ ap ok (sym same.labels_kept);
        name = same.name_kept;
        modules = same.modules_kept;
        quiet = same.quiet;
        contained =
            rw (same.modules_kept, same.policies_kept, same.schema_kept, same.labels_kept)
              contained;
      }

  -- A bundle that comes from an archive: the archive was decoded within the limits, its manifest,
  -- artifacts and signature were accepted, its content keeps to its modules, and the bundle has the
  -- identifier of the manifest and the hash of the bytes.
  pub record IsTrusted (codec : Codec) (bytes : Bytes) (policy : SignaturePolicy)
      (store : TrustStore K) (limits : ArchiveLimits) (b : ValidatedBundle host C E P K W R)
      : Type 0 where
    pub archive : DecodedArchive
    pub decodes : IsDecoded codec bytes limits archive
    pub manifest : ArchiveManifest
    pub accepted : IsValidated host C E P K W R policy store archive manifest b.signature b.parts
    pub content : HasContent archive manifest b.parts
    pub identifier : b.bundle_id ≡ manifest.bundle_id
    pub hash : b.archive_sha256 ≡ sha256_hex K W bytes

  -- Whatever the bytes, a bundle that `validate` returns comes from an archive that was decoded
  -- within the limits, with a consistent manifest that describes its artifacts, a signature that
  -- the policy accepts, and parts that are read from the entries and keep to the modules; it has the
  -- identifier of the manifest and the hash of the bytes.
  pub validate-IsTrusted :
      (codec : Codec) (bytes : Bytes) (policy : SignaturePolicy) (store : TrustStore K)
      (limits : ArchiveLimits) (b : ValidatedBundle host C E P K W R)
      → validate host C E P K W R codec bytes policy store limits ≡ ok (some b)
      → IsTrusted codec bytes policy store limits b
  unfolding validate validate_bytes
  validate-IsTrusted codec bytes policy store limits b h =
      let (d, decodes, h1) = >>=-eq-ok (decode_archive codec bytes limits) _ h in
      let (a, e, good) = decode_archive_total codec bytes limits d decodes in
      let h2 =
        subst (λ x. validate_bytes host C E P K W R bytes policy store true x ≡ ok (some b)) e h1 in
      let (v, validated, h3) =
        >>=-eq-ok (validate_decoded host C E P K W R a policy store true) _ h2 in
      let accepted =
        validate_decoded_accepted host C E P K W R a policy store v.0 v.1.0 v.1.1 validated in
      subst (IsTrusted codec bytes policy store limits) (some-injective (ok-injective h3)) (record {
        archive = a;
        decodes = good;
        manifest = v.0;
        accepted = accepted;
        content = HasContent-of_parts a v.0 v.1.1 accepted.content;
        identifier = refl;
        hash = refl;
      })
