-- ===== src/Archive/Built.antt =====
-- What `BundleArchive::build` writes is read back, and its manifest describes it.
use treetop_bundle.Archive.Manifest.{ArchiveManifest}
use treetop_bundle.Validation.ArchiveParts.{BundleParts}
use treetop_bundle.Validation.Compile.{Printing}
use treetop_bundle.Labels.Rules.{Engine}
use treetop_bundle.Validation.Cedar.{Cedar}
use treetop_bundle.Archive.Validate.{check_payload, check_artifacts, Reader, matches_entry}
use treetop_bundle.Host.{Host}
use treetop_bundle.Archive.Limits.{ArchiveLimits, u64_max, limit_plus_one}
use treetop_bundle.FilePath.{escapes, components, is_absolute}
use treetop_bundle.Archive.Encode.{
  compute_bundle_id, encode_archive, labels_json, schema_bytes, signed_bytes, build_manifest,
  manifest_json, canonical_json_bytes, sha256_hex, build, artifact_record, artifact_entries,
  signature_entry, Writer,
}
use treetop_bundle.Archive.Decode.{
  labels_path, schema_path, policies_path, signature_path, decoded, decode_archive, arrange,
  manifest_path, read_entries, DecodedArchive, TarEntry, Codec,
}
use treetop_bundle.Signing.Crypto.{Crypto, Bytes}
use treetop_bundle.Base.{
  inr, inl, In, All, eq_iff, ◌==◌, sym, length-map, ◌∙◌, ap, [], subst, eq_refl, nat_beq, false,
  arith, ltb, ◌≤◌, ◌+◌, ℕ, ◌-◌, ◌<◌, ◌≡◌, refl, String, true, Option, none, some, List, ◌∷◌, ◌++◌,
  map, length,
}
use treetop_bundle.Error.{Result, ok}

-- An entry as the tar library reads it back.
abbrev pub stored : String × Bytes → Result String TarEntry
stored (path, contents) =
    ok (record { regular = true; path = ok path; is_utf8 = true; contents = ok contents })

-- The names of the entries that the program writes.
abbrev pub entry_names : List String
entry_names = manifest_path ∷ signature_path ∷ policies_path ∷ schema_path ∷ labels_path ∷ []

-- What the tar and gzip libraries document: under a limit that leaves some of it, reading gives the
-- entries that were written under such names and ends with the last byte.
abbrev pub ReadsBack : Codec → Type 0
ReadsBack codec =
    (entries : List (String × Bytes)) (tar bytes : Bytes) (limit : ℕ)
    → All (λ e. In e.0 entry_names) entries
    → codec.tar entries ≡ ok tar
    → codec.gzip tar ≡ ok bytes
    → length tar < limit
    → codec.read bytes limit ≡ record {
      entries = ok (map stored entries);
      drained = ok tt;
      remaining = limit - length tar;
      position = length bytes;
    }

limit_plus_one-ok :
    (limit : ℕ) → limit < u64_max → limit_plus_one limit "uncompressed" ≡ ok (limit + 1)
unfolding limit_plus_one
limit_plus_one-ok limit h = ground arith

nat_beq-of_eq : (a b : ℕ) → a ≡ b → nat_beq a b ≡ true
nat_beq-of_eq a b e = ground (arith, e)

module _ (K : Crypto) (W : Writer) where
  -- The entries of an archive, in the order in which they are written.
  abbrev pub entries_of : DecodedArchive → List (String × Bytes)
  entries_of d =
      (manifest_path, d.manifest) ∷ (signature_entry K W d.signature ++ artifact_entries d)

  read_entries-stored :
      (d : DecodedArchive) → read_entries 0 (map stored (entries_of d)) ≡ ok (entries_of d)
  unfolding read_entries is_absolute components escapes signature_entry artifact_entries
  read_entries-stored d = read_back d.signature d.schema
    where
      read_back :
          (signature schema : Option Bytes)
          → read_entries 0
              (map stored (entries_of (record d { signature = signature; schema = schema })))
            ≡ ok (entries_of (record d { signature = signature; schema = schema }))
      read_back none none = refl
      read_back none (some schema) = refl
      read_back (some signature) none = refl
      read_back (some signature) (some schema) = refl

  entries_of-named : (d : DecodedArchive) → All (λ e. In e.0 entry_names) (entries_of d)
  unfolding signature_entry artifact_entries
  entries_of-named d = named d.signature d.schema
    where
      named :
          (signature schema : Option Bytes)
          → All
              (λ e. In e.0 entry_names)
              (entries_of (record d { signature = signature; schema = schema }))
      named none none = (inl refl, (inr (inr (inl refl)), (inr (inr (inr (inr (inl refl)))), tt)))
      named none (some schema) = (
        inl refl,
        (
          inr (inr (inl refl)),
          (inr (inr (inr (inl refl))), (inr (inr (inr (inr (inl refl)))), tt)),
        ),
      )
      named (some signature) none = (
        inl refl,
        (inr (inl refl), (inr (inr (inl refl)), (inr (inr (inr (inr (inl refl)))), tt))),
      )
      named (some signature) (some schema) = (
        inl refl,
        (
          inr (inl refl),
          (
            inr (inr (inl refl)),
            (inr (inr (inr (inl refl))), (inr (inr (inr (inr (inl refl)))), tt)),
          ),
        ),
      )

  arrange-entries_of : (d : DecodedArchive) → arrange (entries_of d) ≡ ok (decoded d)
  unfolding arrange signature_entry artifact_entries
  arrange-entries_of d = arranged d.signature d.schema
    where
      arranged :
          (signature schema : Option Bytes)
          → arrange (entries_of (record d { signature = signature; schema = schema }))
            ≡ ok (decoded (record d { signature = signature; schema = schema }))
      arranged none none = refl
      arranged none (some schema) = refl
      arranged (some signature) none = refl
      arranged (some signature) (some schema) = refl

  -- An archive that is written within the limits is read back.
  pub decode-entries_of :
      (codec : Codec) (d : DecodedArchive) (limits : ArchiveLimits) (tar bytes : Bytes)
      → ReadsBack codec
      → codec.tar (entries_of d) ≡ ok tar
      → codec.gzip tar ≡ ok bytes
      → length bytes ≤ limits.max_compressed_bytes
      → length tar ≤ limits.max_uncompressed_bytes
      → limits.max_uncompressed_bytes < u64_max
      → decode_archive codec bytes limits ≡ ok (decoded d)
  unfolding decode_archive
  decode-entries_of codec d limits tar bytes back t g small short room =
      let limit = limits.max_uncompressed_bytes + 1 in
      let s : ltb limits.max_compressed_bytes (length bytes) ≡ false = ground arith in
      let l : limit_plus_one limits.max_uncompressed_bytes "uncompressed" ≡ ok limit =
        limit_plus_one-ok limits.max_uncompressed_bytes room in
      let r : nat_beq (limit - length tar) 0 ≡ false = ground arith in
      let p : nat_beq (length bytes) (length bytes) ≡ true = ground arith in
      rw s (
        rw l (
          rw (back (entries_of d) tar bytes limit (entries_of-named d) t g (omega (arith, short)))
            (rw (read_entries-stored d) (rw r (rw p (arrange-entries_of d))))))

  same_matches :
      (host : Host) (C : Cedar) (E : Engine) (P : Printing) (R : Reader) (e : String × Bytes)
      → matches_entry host C E P K W R (artifact_record K W e) e ≡ true
  unfolding matches_entry artifact_record
  same_matches host C E P R (path, contents) =
      ground (arith, eq_refl path, eq_refl (sha256_hex K W contents))

  encode_archive-ok :
      (codec : Codec) (d : DecodedArchive) (tar bytes : Bytes)
      → codec.tar (entries_of d) ≡ ok tar
      → codec.gzip tar ≡ ok bytes
      → encode_archive K W codec d.manifest d.signature (artifact_entries d) ≡ ok bytes
  unfolding encode_archive
  encode_archive-ok codec d tar bytes t g = rw t (rw g refl)

  module _ (host : Host) (C : Cedar) (E : Engine) (P : Printing) (R : Reader) where
    check_artifacts-records :
        (entries : List (String × Bytes))
        → check_artifacts host C E P K W R (map (artifact_record K W) entries) entries ≡ ok tt
    unfolding check_artifacts
    check_artifacts-records [] = refl
    check_artifacts-records (e ∷ entries) =
        rw (same_matches host C E P R e) (check_artifacts-records entries)

    check_payload-ok :
        (d : DecodedArchive) (m : ArchiveManifest)
        → m.artifacts ≡ map (artifact_record K W) (artifact_entries d)
        → m.bundle_id ≡ compute_bundle_id K W m
        → check_payload host C E P K W R d m ≡ ok tt
    unfolding check_payload
    check_payload-ok d m records identifier =
        let count : nat_beq (length m.artifacts) (length (artifact_entries d)) ≡ true =
          nat_beq-of_eq _ _
            (ap length records ∙ length-map (artifact_record K W) (artifact_entries d)) in
        let described : check_artifacts host C E P K W R m.artifacts (artifact_entries d) ≡ ok tt =
          subst (λ rs. check_artifacts host C E P K W R rs (artifact_entries d) ≡ ok tt)
            (sym records) (check_artifacts-records (artifact_entries d)) in
        let same : (m.bundle_id == compute_bundle_id K W m) ≡ true =
          (eq_iff m.bundle_id (compute_bundle_id K W m)).1 identifier in
        rw count (rw described (rw same refl))

    -- The archive that `build` writes.
    abbrev pub written_archive : BundleParts E → Option K.SecretKey → DecodedArchive
    written_archive parts key =
        let manifest = canonical_json_bytes K W (manifest_json (build_manifest K W E parts)) in
        record {
          manifest = manifest;
          signature = signed_bytes K W key manifest;
          policies = W.text_bytes parts.policies;
          schema = schema_bytes K W parts.schema_json;
          labels = canonical_json_bytes K W (labels_json K W E parts.labels);
        }

    -- An archive that `build` writes within the limits is decoded to what was written, and its
    -- manifest passes the checks of the artifacts and of the identifier.
    pub decode-build :
        (codec : Codec) (parts : BundleParts E) (key : Option K.SecretKey) (limits : ArchiveLimits)
        (tar bytes : Bytes)
        → ReadsBack codec
        → codec.tar (entries_of (written_archive parts key)) ≡ ok tar
        → codec.gzip tar ≡ ok bytes
        → length bytes ≤ limits.max_compressed_bytes
        → length tar ≤ limits.max_uncompressed_bytes
        → limits.max_uncompressed_bytes < u64_max
        → (build K W codec E parts key ≡ ok bytes)
          × (decode_archive codec bytes limits ≡ ok (decoded (written_archive parts key)))
          × (check_payload host C E P K W R (written_archive parts key) (build_manifest K W E parts)
              ≡ ok tt)
    unfolding build build_manifest artifact_entries
    decode-build codec parts key limits tar bytes back t g small short room = (
      encode_archive-ok codec (written_archive parts key) tar bytes t g,
      decode-entries_of codec (written_archive parts key) limits tar bytes back t g small short
          room,
      check_payload-ok (written_archive parts key) (build_manifest K W E parts) refl refl,
    )
