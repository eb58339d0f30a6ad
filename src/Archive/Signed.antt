-- ===== src/Archive/Signed.antt =====
-- What `BundleArchive::resign` guarantees of the archive that it signs and of what it writes.
use treetop_bundle.Validation.Contained.{some-injective}
use treetop_bundle.Archive.Accepted.{HasContent-of_parts, HasContent}
use treetop_bundle.Archive.Verified.{check_payload-eq-ok, DescribeAll}
use treetop_bundle.Archive.Consistent.{validate_manifest_accepted, IsConsistent}
use treetop_bundle.Archive.Resigned.{resigned}
use treetop_bundle.Error.{ok-injective, map_err-eq-ok, map_err, >>=-eq-ok, ok}
use treetop_bundle.Archive.Built.{entries_of}
use treetop_bundle.Archive.Order.{decode_archive_total, IsDecoded}
use treetop_bundle.Archive.Limits.{ArchiveLimits}
use treetop_bundle.Signing.Trust.{TrustStore}
use treetop_bundle.Validation.ArchiveParts.{BundleParts}
use treetop_bundle.Archive.Manifest.{validate_manifest, ArchiveManifest}
use treetop_bundle.Archive.Decode.{
  signature_path, decode_archive, manifest_path, DecodedArchive, Codec,
}
use treetop_bundle.Archive.Validate.{
  decoded_parts, check_payload, verified_signature, allow_unsigned, check_format, transposed,
  VerifiedSignature, parse_json, resign_decoded, SignaturePolicy, validate_decoded, resign, Reader,
}
use treetop_bundle.Archive.Encode.{compute_bundle_id, artifact_entries, encode_archive, Writer}
use treetop_bundle.Signing.Crypto.{Bytes, Crypto}
use treetop_bundle.Validation.Compile.Stages.{Printing}
use treetop_bundle.Labels.Rules.{Engine}
use treetop_bundle.Validation.Cedar.{Cedar}
use treetop_bundle.Host.{Host}
use treetop_bundle.Base.{ap, ◌∙◌, false, subst, some, Bool, ◌≡◌, []}

module _ (host : Host) (C : Cedar) (E : Engine) (P : Printing) (K : Crypto) (W : Writer)
    (R : Reader) where
  -- A decoded archive that was validated, whatever its signature: its manifest is consistent and
  -- describes the entries, and its content keeps to the modules.
  pub record IsSound (d : DecodedArchive) (m : ArchiveManifest) (parts : BundleParts E)
      : Type 0 where
    pub read : parse_json host R.manifest_from_json manifest_path d.manifest ≡ ok m
    pub consistent : IsConsistent host m
    pub described : DescribeAll host C E P K W R m.artifacts (artifact_entries d)
    pub identifier : m.bundle_id ≡ compute_bundle_id K W m
    pub content : HasContent host C E P K W R d m parts

  validate_decoded-IsSound :
      (d : DecodedArchive) (policy : SignaturePolicy) (store : TrustStore K) (verifies : Bool)
      (m : ArchiveManifest) (v : VerifiedSignature) (parts : BundleParts E)
      → validate_decoded host C E P K W R d policy store verifies ≡ ok (m, (v, parts))
      → IsSound d m parts
  unfolding validate_decoded
  validate_decoded-IsSound d policy store verifies m v parts h =
      let (m', read, h1) =
        >>=-eq-ok (parse_json host R.manifest_from_json manifest_path d.manifest) _ h in
      let (s, _, h2) =
        >>=-eq-ok (transposed (parse_json host R.signature_from_json signature_path) d.signature) _
          h1 in
      let (_, _, h3) = >>=-eq-ok (check_format host C E P K W R s) _ h2 in
      let (v', _, h4) =
        >>=-eq-ok (verified_signature host C E P K W R policy store verifies d.manifest s) _ h3 in
      let (_, consistent, h5) = >>=-eq-ok (validate_manifest host m') _ h4 in
      let (_, payload, h6) = >>=-eq-ok (check_payload host C E P K W R d m') _ h5 in
      let (parts', content, h7) = >>=-eq-ok (decoded_parts host C E P K W R d m') _ h6 in
      let (described, identifier) = check_payload-eq-ok host C E P K W R d m' payload in
      subst (λ (p : ArchiveManifest × (VerifiedSignature × BundleParts E)). IsSound d p.0 p.1.1)
        (ok-injective h7)
        (record {
          read = read;
          consistent = validate_manifest_accepted host m' consistent;
          described = described;
          identifier = identifier;
          content = HasContent-of_parts host C E P K W R d m' parts' content;
        })

  -- The bytes are the compressed entries of an archive that was decoded within the limits and
  -- validated, with the signature that the key makes of its manifest and all else as it was.
  pub record IsResigned (codec : Codec) (source : Bytes) (secret : K.SecretKey)
      (limits : ArchiveLimits) (bytes : Bytes) : Type 0 where
    pub archive : DecodedArchive
    pub decodes : IsDecoded codec source limits archive
    pub manifest : ArchiveManifest
    pub parts : BundleParts E
    pub sound : IsSound archive manifest parts
    pub tar : Bytes
    pub tarred : codec.tar (entries_of K W (resigned K W secret archive)) ≡ ok tar
    pub gzipped : codec.gzip tar ≡ ok bytes

  encoded :
      (codec : Codec) (d : DecodedArchive) (out : Bytes)
      → encode_archive K W codec d.manifest d.signature (artifact_entries d) ≡ ok out
      → (tar : Bytes) × (codec.tar (entries_of K W d) ≡ ok tar) × (codec.gzip tar ≡ ok out)
  unfolding encode_archive
  encoded codec d out h =
      let (tar, t, g) = >>=-eq-ok (map_err _ (codec.tar (entries_of K W d))) _ h in
      (tar, map_err-eq-ok _ (codec.tar (entries_of K W d)) t, map_err-eq-ok _ (codec.gzip tar) g)

  pub resign-IsResigned :
      (codec : Codec) (source : Bytes) (secret : K.SecretKey) (limits : ArchiveLimits)
      (bytes : Bytes)
      → resign host C E P K W R codec source secret limits ≡ ok (some bytes)
      → IsResigned codec source secret limits bytes
  unfolding resign resign_decoded artifact_entries
  resign-IsResigned codec source secret limits bytes h =
      let (d, decodes, h1) = >>=-eq-ok (decode_archive codec source limits) _ h in
      let (a, e, good) = decode_archive_total codec source limits d decodes in
      let h2 = subst (λ x. resign_decoded host C E P K W R codec secret x ≡ ok (some bytes)) e h1 in
      let (v, validated, h3) =
        >>=-eq-ok (validate_decoded host C E P K W R a allow_unsigned [] false) _ h2 in
      let (out, written, h4) =
        >>=-eq-ok
          (encode_archive K W codec a.manifest (resigned K W secret a).signature
            (artifact_entries a))
          _ h3 in
      let same : out ≡ bytes = some-injective (ok-injective h4) in
      let (tar, tarred, gzipped) = encoded codec (resigned K W secret a) out written in
      record {
        archive = a;
        decodes = good;
        manifest = v.0;
        parts = v.1.1;
        sound = validate_decoded-IsSound a allow_unsigned [] false v.0 v.1.0 v.1.1 validated;
        tar = tar;
        tarred = tarred;
        gzipped = gzipped ∙ ap ok same;
      }
