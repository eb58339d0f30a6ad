-- ===== src/Cli/Inputs.antt =====
-- What the commands ask of the library in one state of the disk.
use treetop_bundle.Signing.Trust.{TrustStore}
use treetop_bundle.Diagnostic.{Diagnostic}
use treetop_bundle.Signing.Crypto.{Bytes}
use treetop_bundle.Cli.Arguments.{
  CheckArchiveArgs, CheckPolicyArgs, signature_policy_of, SignArgs, BuildArgs,
}
use treetop_bundle.Validation.PolicyCheck.{check_policy}
use treetop_bundle.Builder.{builder_build, builder_check}
use treetop_bundle.Manifest.Bundle.{bundle_from_path}
use treetop_bundle.Cli.Keys.{read_string}
use treetop_bundle.Archive.Validate.{transposed, resign, validate, ValidatedBundle}
use treetop_bundle.Archive.Read.{read_archive}
use treetop_bundle.FileSystem.{Files}
use treetop_bundle.Host.{Host}
use treetop_bundle.Cli.World.{Libraries}
use treetop_bundle.Base.{String, false, Option, List}
use treetop_bundle.Archive.Limits.{default_limits}
use treetop_bundle.Error.{BundleError, Result, ◌>>=◌}

abbrev pub ReadBundle : Libraries → Host → Type 0
ReadBundle L host = ValidatedBundle host L.cedar L.engine L.printing L.crypto L.writer L.reader

module _ (L : Libraries) (host : Host) (F : Files) where
  -- The parts of `run_check`.
  unfoldable pub checked_policy : CheckPolicyArgs → Result BundleError (List Diagnostic)
  unfolding read_string check_policy
  checked_policy args = do
    policy ← read_string F args.file
    schema ← transposed (read_string F) args.schema
    labels ← transposed (read_string F) args.labels
    check_policy L.cedar L.engine L.printing policy schema labels

  unfoldable pub checked_bundle : String → Result BundleError (List Diagnostic)
  unfolding bundle_from_path builder_check
  checked_bundle path = do
    manifest ← bundle_from_path host path
    builder_check host L.cedar L.engine L.printing manifest false

  unfoldable pub validated_archive :
      CheckArchiveArgs → TrustStore L.crypto → Result BundleError (Option (ReadBundle L host))
  unfolding read_archive validate signature_policy_of
  validated_archive args store = do
    bytes ← read_archive F args.archive default_limits.max_compressed_bytes
    validate host L.cedar L.engine L.printing L.crypto L.writer L.reader L.codec bytes
        (signature_policy_of args.signature_policy) store default_limits

  -- The archive of `run_build`.
  unfoldable pub built_archive : BuildArgs → Option L.crypto.SecretKey → Result BundleError Bytes
  unfolding bundle_from_path builder_build
  built_archive args signing_key = do
    manifest ← bundle_from_path host args.manifest
    builder_build host L.cedar L.engine L.printing L.crypto L.writer L.codec manifest
        args.deny_warnings signing_key

  -- The archive of `run_sign`.
  unfoldable pub signed_archive : SignArgs → L.crypto.SecretKey → Result BundleError (Option Bytes)
  unfolding read_archive resign
  signed_archive args signing_key = do
    bytes ← read_archive F args.archive default_limits.max_compressed_bytes
    resign host L.cedar L.engine L.printing L.crypto L.writer L.reader L.codec bytes signing_key
        default_limits
