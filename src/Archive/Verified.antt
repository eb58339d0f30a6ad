-- ===== src/Archive/Verified.antt =====
-- What an archive that `validate_decoded` accepts satisfies.
use treetop_bundle.Base.{
  subst, String, ◌≡◌, refl, sym, ap, true, false, not, Option, none, some, List, [], ◌∷◌, arith,
  length, nat_beq, nat_beq→eq, eq_iff, ◌==◌,
}
use treetop_bundle.Error.{ok, >>=-eq-ok, refuse_if, refuse_if-eq-ok, ok-injective}
use treetop_bundle.Host.{Host}
use treetop_bundle.Labels.Rules.{Engine}
use treetop_bundle.Signing.Crypto.{Bytes, Crypto, BundleSignature}
use treetop_bundle.Signing.Trust.{verify, TrustStore}
use treetop_bundle.Signing.Verify.{IsVerified, verify_iff}
use treetop_bundle.Validation.ArchiveParts.{BundleParts}
use treetop_bundle.Validation.Cedar.{Cedar}
use treetop_bundle.Validation.Compile.{Printing}
use treetop_bundle.Archive.Manifest.{ArtifactRecord, ArchiveManifest, validate_manifest}
use treetop_bundle.Archive.Consistent.{IsConsistent, validate_manifest_accepted}
use treetop_bundle.Archive.Decode.{DecodedArchive, manifest_path, signature_path}
use treetop_bundle.Archive.Encode.{Writer, sha256_hex, compute_bundle_id, artifact_entries}
use treetop_bundle.Archive.Validate.{
  SignaturePolicy, allow_unsigned, required, VerifiedSignature, Reader, parse_json, transposed,
  verified_signature, check_format, check_payload, decoded_parts, matches_entry, check_artifacts,
  validate_decoded,
}

module _ (host : Host) (C : Cedar) (E : Engine) (P : Printing) (K : Crypto) (W : Writer)
    (R : Reader) where
  -- A record that describes an entry.
  abbrev pub Describes : ArtifactRecord → String × Bytes → Type 0
  Describes r (path, contents) =
      (r.path ≡ path) × (r.size ≡ length contents) × (r.sha256 ≡ sha256_hex K W contents)

  -- The records describe the entries, one each and in order.
  abbrev pub DescribeAll : List ArtifactRecord → List (String × Bytes) → Type 0
  DescribeAll [] [] = Unit {0}
  DescribeAll [] (e ∷ entries) = ⊥
  DescribeAll (r ∷ records) [] = ⊥
  DescribeAll (r ∷ records) (e ∷ entries) = Describes r e × DescribeAll records entries

  matches_entry→Describes :
      (r : ArtifactRecord) (e : String × Bytes)
      → matches_entry host C E P K W R r e ≡ true
      → Describes r e
  unfolding matches_entry
  matches_entry→Describes r (path, contents) h = (
    (eq_iff r.path path).0 (ground arith),
    nat_beq→eq r.size (length contents) (ground arith),
    (eq_iff r.sha256 (sha256_hex K W contents)).0 (ground arith),
  )

  check_artifacts-eq-ok :
      (records : List ArtifactRecord) (entries : List (String × Bytes))
      → length records ≡ length entries
      → check_artifacts host C E P K W R records entries ≡ ok tt
      → DescribeAll records entries
  unfolding check_artifacts
  check_artifacts-eq-ok [] [] l h = tt
  check_artifacts-eq-ok [] (e ∷ entries) l h = absurd (omega arith)
  check_artifacts-eq-ok (r ∷ records) [] l h = absurd (omega arith)
  check_artifacts-eq-ok (r ∷ records) (e ∷ entries) l h =
      let (_, here, there) =
        >>=-eq-ok (refuse_if (not (matches_entry host C E P K W R r e)) _) _ h in
      let matched : not (matches_entry host C E P K W R r e) ≡ false = refuse_if-eq-ok _ _ here in
      (
        matches_entry→Describes r e (ground arith),
        check_artifacts-eq-ok records entries (omega arith) there,
      )

  -- The signature of an archive under a policy: none, where none is required, or one that a key
  -- of the store has made of the manifest.
  abbrev pub SignatureRule :
      SignaturePolicy → TrustStore K → Bytes → Option BundleSignature → VerifiedSignature → Type 0
  SignatureRule policy store manifest none v = (policy ≡ allow_unsigned) × (v.signed ≡ false)
  SignatureRule policy store manifest (some s) v =
      (id : String) × IsVerified K store manifest s id
      × (v ≡ record { signed = true; key_id = some id })

  verified_signature-eq-ok :
      (policy : SignaturePolicy) (store : TrustStore K) (manifest : Bytes)
      (s : Option BundleSignature) (v : VerifiedSignature)
      → verified_signature host C E P K W R policy store true manifest s ≡ ok v
      → SignatureRule policy store manifest s v
  unfolding verified_signature
  verified_signature-eq-ok required store manifest none v h = absurd cc
  verified_signature-eq-ok allow_unsigned store manifest none v h =
      (refl, ap (λ (x : VerifiedSignature). x.signed) (sym (ok-injective h)))
  verified_signature-eq-ok policy store manifest (some s) v h =
      let (id, good, e) = >>=-eq-ok (verify K store manifest s) _ h in
      (id, (verify_iff K store manifest s id).0 good, sym (ok-injective e))

  pub check_payload-eq-ok :
      (d : DecodedArchive) (m : ArchiveManifest)
      → check_payload host C E P K W R d m ≡ ok tt
      → DescribeAll m.artifacts (artifact_entries d) × (m.bundle_id ≡ compute_bundle_id K W m)
  unfolding check_payload
  check_payload-eq-ok d m h =
      let entries = artifact_entries d in
      let (_, lengths, h1) =
        >>=-eq-ok (refuse_if (not (nat_beq (length m.artifacts) (length entries))) _) _ h in
      let (_, artifacts, identifier) =
        >>=-eq-ok (check_artifacts host C E P K W R m.artifacts entries) _ h1 in
      let count : not (nat_beq (length m.artifacts) (length entries)) ≡ false =
        refuse_if-eq-ok _ _ lengths in
      let same : not (m.bundle_id == compute_bundle_id K W m) ≡ false =
        refuse_if-eq-ok _ _ identifier in
      (
        check_artifacts-eq-ok m.artifacts entries
            (nat_beq→eq (length m.artifacts) (length entries) (ground arith)) artifacts,
        (eq_iff m.bundle_id (compute_bundle_id K W m)).0 (ground arith),
      )

  -- A decoded archive that was accepted, with the manifest and signature read from it.
  pub record IsValidated (policy : SignaturePolicy) (store : TrustStore K) (d : DecodedArchive)
      (m : ArchiveManifest) (v : VerifiedSignature) (parts : BundleParts E) : Type 0 where
    pub read : parse_json host R.manifest_from_json manifest_path d.manifest ≡ ok m
    pub consistent : IsConsistent host m
    pub described : DescribeAll m.artifacts (artifact_entries d)
    pub identifier : m.bundle_id ≡ compute_bundle_id K W m
    pub content : decoded_parts host C E P K W R d m ≡ ok parts
    pub signature : Option BundleSignature
    pub signature_read :
        transposed (parse_json host R.signature_from_json signature_path) d.signature ≡ ok signature
    pub signed : SignatureRule policy store d.manifest signature v

  -- An archive that `validate_decoded` accepts while it verifies signatures has a consistent
  -- manifest, whose records give the path, size and hash of every artifact in order and whose
  -- identifier is that of its payload; its content passes the checks of content; and it is signed
  -- by a key of the trust store, or unsigned under a policy that allows it.
  pub validate_decoded_accepted :
      (d : DecodedArchive) (policy : SignaturePolicy) (store : TrustStore K) (m : ArchiveManifest)
      (v : VerifiedSignature) (parts : BundleParts E)
      → validate_decoded host C E P K W R d policy store true ≡ ok (m, (v, parts))
      → IsValidated policy store d m v parts
  unfolding validate_decoded
  validate_decoded_accepted d policy store m v parts h =
      let (m', read, h1) =
        >>=-eq-ok (parse_json host R.manifest_from_json manifest_path d.manifest) _ h in
      let (s, signature_read, h2) =
        >>=-eq-ok (transposed (parse_json host R.signature_from_json signature_path) d.signature) _
          h1 in
      let (_, _, h3) = >>=-eq-ok (check_format host C E P K W R s) _ h2 in
      let (v', verified, h4) =
        >>=-eq-ok (verified_signature host C E P K W R policy store true d.manifest s) _ h3 in
      let (_, consistent, h5) = >>=-eq-ok (validate_manifest host m') _ h4 in
      let (_, payload, h6) = >>=-eq-ok (check_payload host C E P K W R d m') _ h5 in
      let (parts', content, h7) = >>=-eq-ok (decoded_parts host C E P K W R d m') _ h6 in
      let (described, identifier) = check_payload-eq-ok d m' payload in
      subst
        (λ (p : ArchiveManifest × (VerifiedSignature × BundleParts E)).
          IsValidated policy store d p.0 p.1.0 p.1.1)
        (ok-injective h7)
        (record {
          read = read;
          consistent = validate_manifest_accepted host m' consistent;
          described = described;
          identifier = identifier;
          content = content;
          signature = s;
          signature_read = signature_read;
          signed = verified_signature-eq-ok policy store d.manifest s v' verified;
        })
