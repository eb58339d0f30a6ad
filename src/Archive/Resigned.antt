-- ===== src/Archive/Resigned.antt =====
-- What `BundleArchive::resign` writes is read back with the new signature and all else unchanged.
use treetop_bundle.Validation.Contained.{some-injective}
use treetop_bundle.Archive.Limits.{u64_max, ArchiveLimits}
use treetop_bundle.Archive.Validate.{
  allow_unsigned, validate_decoded, resign_decoded, resign, Reader,
}
use treetop_bundle.Archive.Built.{decode-entries_of, ReadsBack, entries_of}
use treetop_bundle.Validation.Compile.{Printing}
use treetop_bundle.Labels.Rules.{Engine}
use treetop_bundle.Validation.Cedar.{Cedar}
use treetop_bundle.Archive.Decode.{decoded, decode_archive, Codec, DecodedArchive}
use treetop_bundle.Host.{Host}
use treetop_bundle.Archive.Encode.{
  artifact_entries, signature_json, canonical_json_bytes, encode_archive, Writer,
}
use treetop_bundle.Signing.Crypto.{sign_manifest, Bytes, Crypto}
use treetop_bundle.Base.{◌≡◌, ◌∙◌, ◌≤◌, ◌<◌, ap, sym, subst, false, some, [], length}
use treetop_bundle.Error.{◌>>=◌, map_err, ok, >>=-eq-ok, ok-injective, map_err-eq-ok}

module _ (K : Crypto) (W : Writer) where
  -- The archive with the signature that the key makes of its manifest.
  abbrev pub resigned : K.SecretKey → DecodedArchive → DecodedArchive
  resigned secret a = record a {
    signature =
        some (canonical_json_bytes K W (signature_json (sign_manifest K secret a.manifest)));
  }

  gzip-of_encode :
      (codec : Codec) (d : DecodedArchive) (tar out : Bytes)
      → codec.tar (entries_of K W d) ≡ ok tar
      → encode_archive K W codec d.manifest d.signature (artifact_entries d) ≡ ok out
      → codec.gzip tar ≡ ok out
  unfolding encode_archive
  gzip-of_encode codec d tar out t h =
      let (tar', t', g) = >>=-eq-ok (map_err _ (codec.tar (entries_of K W d))) _ h in
      let same : tar ≡ tar' =
        ok-injective (sym t ∙ map_err-eq-ok _ (codec.tar (entries_of K W d)) t') in
      subst (λ x. codec.gzip x ≡ ok out) (sym same) (map_err-eq-ok _ (codec.gzip tar') g)

  module _ (host : Host) (C : Cedar) (E : Engine) (P : Printing) (R : Reader) where
    -- What `resign` writes is decoded, within the limits, to the archive that it was given, with
    -- nothing changed but the signature, which is the one that the key makes of the manifest.
    pub decode-resign :
        (codec : Codec) (bytes tar out : Bytes) (secret : K.SecretKey) (limits : ArchiveLimits)
        (a : DecodedArchive)
        → ReadsBack codec
        → decode_archive codec bytes limits ≡ ok (decoded a)
        → resign host C E P K W R codec bytes secret limits ≡ ok (some out)
        → codec.tar (entries_of K W (resigned secret a)) ≡ ok tar
        → length out ≤ limits.max_compressed_bytes
        → length tar ≤ limits.max_uncompressed_bytes
        → limits.max_uncompressed_bytes < u64_max
        → decode_archive codec out limits ≡ ok (decoded (resigned secret a))
    unfolding resign resign_decoded artifact_entries
    decode-resign codec bytes tar out secret limits a back d h t small short room =
        let h1 : resign_decoded host C E P K W R codec secret (decoded a) ≡ ok (some out) =
          subst (λ r. (r >>= resign_decoded host C E P K W R codec secret) ≡ ok (some out)) d h in
        let (v, _, h2) =
          >>=-eq-ok (validate_decoded host C E P K W R a allow_unsigned [] false) _ h1 in
        let (out', e, h3) =
          >>=-eq-ok
            (encode_archive K W codec a.manifest (resigned secret a).signature (artifact_entries a))
            _ h2 in
        let same : out' ≡ out = some-injective (ok-injective h3) in
        let g : codec.gzip tar ≡ ok out =
          gzip-of_encode codec (resigned secret a) tar out t (e ∙ ap ok same) in
        decode-entries_of K W codec (resigned secret a) limits tar out back t g small short room
