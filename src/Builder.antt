-- ===== src/Builder.antt =====
-- src/builder.rs: `BundleBuilder`, the entry point of the compiler.
use treetop_bundle.Base.{Bool, ◌&&◌, Option, List}
use treetop_bundle.Diagnostic.{Diagnostic, has_warning}
use treetop_bundle.Error.{BundleError, validation, Result, ok, ◌>>=◌, ◌>>◌, refuse_if}
use treetop_bundle.Host.{Host}
use treetop_bundle.Labels.Rules.{Engine}
use treetop_bundle.Manifest.Bundle.{BundleManifest}
use treetop_bundle.Signing.Crypto.{Bytes, Crypto}
use treetop_bundle.Validation.Cedar.{Cedar}
use treetop_bundle.Validation.Compile.{Printing, compile_manifest}
use treetop_bundle.Archive.Decode.{Codec}
use treetop_bundle.Archive.Encode.{Writer, build}

module _ (host : Host) (C : Cedar) (E : Engine) (P : Printing) where
  -- Warnings refuse the bundle where they are denied.
  unfoldable pub refuse_warnings : Bool → List Diagnostic → Result BundleError (Unit {0})
  refuse_warnings deny_warnings diagnostics =
      refuse_if (deny_warnings && has_warning diagnostics) (validation diagnostics)

  -- `BundleBuilder::check`: the diagnostics of the check.
  unfoldable pub builder_check : BundleManifest → Bool → Result BundleError (List Diagnostic)
  unfolding refuse_warnings compile_manifest
  builder_check manifest deny_warnings = do
    parts ← compile_manifest host C E P manifest
    refuse_warnings deny_warnings parts.diagnostics
    ok parts.diagnostics

  -- `BundleBuilder::build`
  unfoldable pub builder_build :
      (K : Crypto)
      → Writer
      → Codec
      → BundleManifest
      → Bool
      → Option K.SecretKey
      → Result BundleError Bytes
  unfolding refuse_warnings compile_manifest build
  builder_build K W codec manifest deny_warnings signing_key = do
    parts ← compile_manifest host C E P manifest
    refuse_warnings deny_warnings parts.diagnostics
    build K W codec E parts signing_key
