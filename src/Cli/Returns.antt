-- ===== src/Cli/Returns.antt =====
-- Neither the validation nor the signing of an archive panics.
use treetop_bundle.Archive.Encode.{
  artifact_entries, signature_json, canonical_json_bytes, encode_archive,
}
use treetop_bundle.Cli.NeverPanics.{ok-some-ne}
use treetop_bundle.Archive.Order.{decode_archive_total}
use treetop_bundle.Archive.Decode.{decode_archive}
use treetop_bundle.Archive.Read.{read_archive}
use treetop_bundle.Signing.Trust.{TrustStore}
use treetop_bundle.Archive.Limits.{default_limits, ArchiveLimits}
use treetop_bundle.Error.{>>=-eq-ok, ok}
use treetop_bundle.Cli.Arguments.{CheckArchiveArgs, SignArgs}
use treetop_bundle.Signing.Crypto.{sign_manifest, Bytes}
use treetop_bundle.FileSystem.{Files}
use treetop_bundle.Cli.Inputs.{validated_archive, signed_archive}
use treetop_bundle.Archive.Validate.{
  allow_unsigned, validate_decoded, SignaturePolicy, validate_bytes, validate, resign_decoded,
  resign,
}
use treetop_bundle.Host.{Host}
use treetop_bundle.Cli.World.{Libraries}
use treetop_bundle.Base.{some, false, [], true, subst, none, ◌≡◌, ◌≢◌}

module _ (L : Libraries) (host : Host) where
  validate-returns :
      (bytes : Bytes) (policy : SignaturePolicy) (store : TrustStore L.crypto)
      (limits : ArchiveLimits)
      → validate host L.cedar L.engine L.printing L.crypto L.writer L.reader L.codec bytes policy
          store limits
        ≢ ok none
  unfolding validate validate_bytes
  validate-returns bytes policy store limits h =
      let (d, decodes, h1) = >>=-eq-ok (decode_archive L.codec bytes limits) _ h in
      let (a, e, _) = decode_archive_total L.codec bytes limits d decodes in
      let h2 =
        subst
          (λ x.
            validate_bytes host L.cedar L.engine L.printing L.crypto L.writer L.reader bytes policy
              store true x
            ≡ ok none)
          e h1 in
      let (validated, _, h3) =
        >>=-eq-ok
          (validate_decoded host L.cedar L.engine L.printing L.crypto L.writer L.reader a policy
            store true)
          _ h2 in
      ok-some-ne h3

  resign-returns :
      (bytes : Bytes) (secret : L.crypto.SecretKey) (limits : ArchiveLimits)
      → resign host L.cedar L.engine L.printing L.crypto L.writer L.reader L.codec bytes secret
          limits
        ≢ ok none
  unfolding resign resign_decoded
  resign-returns bytes secret limits h =
      let (d, decodes, h1) = >>=-eq-ok (decode_archive L.codec bytes limits) _ h in
      let (a, e, _) = decode_archive_total L.codec bytes limits d decodes in
      let h2 =
        subst
          (λ x.
            resign_decoded host L.cedar L.engine L.printing L.crypto L.writer L.reader L.codec
              secret x
            ≡ ok none)
          e h1 in
      let (validated, _, h3) =
        >>=-eq-ok
          (validate_decoded host L.cedar L.engine L.printing L.crypto L.writer L.reader a
            allow_unsigned [] false)
          _ h2 in
      let (out, _, h4) =
        >>=-eq-ok
          (encode_archive L.crypto L.writer L.codec a.manifest
            (some (
              canonical_json_bytes L.crypto L.writer
                (signature_json (sign_manifest L.crypto secret a.manifest))))
            (artifact_entries a))
          _ h3 in
      ok-some-ne h4

  pub validated_archive-returns :
      (F : Files) (args : CheckArchiveArgs) (store : TrustStore L.crypto)
      → validated_archive L host F args store ≢ ok none
  unfolding validated_archive
  validated_archive-returns F args store h =
      let (bytes, _, h1) = >>=-eq-ok (read_archive F args.archive _) _ h in
      validate-returns bytes _ store default_limits h1

  pub signed_archive-returns :
      (F : Files) (args : SignArgs) (secret : L.crypto.SecretKey)
      → signed_archive L host F args secret ≢ ok none
  unfolding signed_archive
  signed_archive-returns F args secret h =
      let (bytes, _, h1) = >>=-eq-ok (read_archive F args.archive _) _ h in
      resign-returns bytes secret default_limits h1
