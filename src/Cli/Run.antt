-- ===== src/Cli/Run.antt =====
-- The commands and the exit code of the program.
use treetop_bundle.Signing.Trust.{TrustStore}
use treetop_bundle.Archive.Validate.{transposed}
use treetop_bundle.Json.{Json, end, string, bool, field, object}
use treetop_bundle.Host.{Host}
use treetop_bundle.Validation.PolicyCheck.{check_module}
use treetop_bundle.Archive.Encode.{sha256_hex}
use treetop_bundle.Signing.Crypto.{Bytes}
use treetop_bundle.Error.{
  is_validation, io, err, map_err, ok, refuse_if, BundleError, show_error, Result,
}
use treetop_bundle.Cli.Arguments.{
  check_archive_target, check_bundle_target, json_format, check_module_target, human_format,
  check_policy_target, CheckTarget, CommonCheckArgs, sign, build, BuildArgs, OutputFormat, check,
  SignArgs, CheckArchiveArgs, Command,
}
use treetop_bundle.Cli.Keys.{load_trust_store, load_signing_key}
use treetop_bundle.Cli.Render.{render_policy_check, render_check, render_content_error}
use treetop_bundle.Cli.Inputs.{
  ReadBundle, checked_bundle, checked_policy, signed_archive, validated_archive, built_archive,
}
use treetop_bundle.Base.{ℕ, String, true, Option, none, some, List, [], ◌∷◌, if◌then◌else◌}
use treetop_bundle.Diagnostic.{Message, text, say}
use treetop_bundle.Cli.World.{
  panicked, observe, failed, println, returned, Stop, changes, reads, Console, Disk, Libraries,
  Action, ◌>>=◌, ◌>>◌,
}

module _ (L : Libraries) {S : Type 0} (D : Disk S) (console : Console) where
  -- `refuse_overwrite`
  unfoldable pub refuse_overwrite : String → Action S (Unit {0})
  refuse_overwrite path =
      reads
        (λ s. refuse_if ((D.files s).exists path) (io path (say "refusing to overwrite output")))

  unfoldable pub create_output : String → S → Result BundleError (Unit {0}) × S
  create_output path s =
      (map_err (λ e. io path (say e)) (D.create_new path s).0, (D.create_new path s).1)

  unfoldable pub write_output : String → Bytes → S → Result BundleError (Unit {0}) × S
  write_output path contents s = (
    map_err (λ e. io path (say e)) (D.write_all path contents s).0,
    (D.write_all path contents s).1,
  )

  -- `write_new_file`
  unfoldable pub write_new_file : String → Bytes → Action S (Unit {0})
  unfolding create_output write_output
  write_new_file path contents = do
    changes (create_output path)
    changes (write_output path contents)

  unfoldable pub render_archive :
      (host : Host)
      → CommonCheckArgs
      → Result BundleError (Option (ReadBundle L host))
      → Action S (Unit {0})
  unfolding render_check render_content_error
  render_archive host common (ok validated) = do
    bundle ← returned validated
    render_check L common bundle.parts.diagnostics (some bundle.bundle_id)
        (some bundle.archive_sha256)
  render_archive host common (err e) = render_content_error L common e

  -- The check of an archive against a trust store.
  unfoldable pub check_archive : CheckArchiveArgs → TrustStore L.crypto → Action S (Unit {0})
  unfolding validated_archive render_archive
  check_archive args store s =
      render_archive (D.host s) args.common (validated_archive L (D.host s) (D.files s) args store)
        s

  -- `run_check`
  unfoldable pub run_check : CheckTarget → Action S (Unit {0})
  unfolding checked_policy check_module checked_bundle load_trust_store check_archive render_check
      render_policy_check
  run_check (check_policy_target args) = do
    checked ← reads (λ s. checked_policy L (D.host s) (D.files s) args)
    render_check L args.common checked none none
  run_check (check_module_target args) = do
    checked ← observe (λ s. check_module L.cedar L.engine L.printing (D.host s) args.manifest)
    render_policy_check L args.common checked
  run_check (check_bundle_target args) = do
    checked ← observe (λ s. checked_bundle L (D.host s) (D.files s) args.manifest)
    render_policy_check L args.common checked
  run_check (check_archive_target args) = do
    store ← reads (λ s. load_trust_store L.crypto (D.files s) args.trusted_keys)
    check_archive args store

  unfoldable pub load_key : String → Option String → S → Result BundleError L.crypto.SecretKey
  unfolding load_signing_key
  load_key path password_file s =
      load_signing_key L.crypto L.decoder console (D.host s) (D.files s) path password_file

  unfoldable pub json_line : Bytes → Json → Message
  unfolding sha256_hex
  json_line archive output = say (
      L.printing.show_json (
        object (
          field "built" (bool true) (
            field "output" output
              (field "archive_sha256" (string (sha256_hex L.crypto L.writer archive)) end)))))

  -- `json!` panics when the path has no JSON value.
  unfoldable pub path_line : Bytes → Option Json → Option Message
  unfolding json_line
  path_line archive none = none
  path_line archive (some path) = some (json_line archive path)

  -- The line on a new archive.
  unfoldable pub built_line : OutputFormat → String → Bytes → Option Message
  unfolding path_line
  built_line human_format output archive = some (text "wrote " ∷ text output ∷ [])
  built_line json_format output archive = path_line archive (L.path_to_json output)

  unfoldable pub finish_build : BuildArgs → Result BundleError Bytes → Action S (Unit {0})
  unfolding write_new_file built_line render_content_error
  finish_build args (ok archive) = do
    write_new_file args.output archive
    line ← returned (built_line args.format args.output archive)
    println L line
  finish_build args (err e) =
      render_content_error L (record { format = args.format; deny_warnings = args.deny_warnings }) e

  -- `run_build`
  unfoldable pub run_build : BuildArgs → Action S (Unit {0})
  unfolding refuse_overwrite load_key built_archive finish_build
  run_build args = do
    refuse_overwrite args.output
    signing_key ←
        reads (λ s.
          transposed (λ path. load_key path args.signing_key_password_file s) args.signing_key)
    built ← observe (λ s. built_archive L (D.host s) (D.files s) args signing_key)
    finish_build args built

  -- `run_sign`
  unfoldable pub run_sign : SignArgs → Action S (Unit {0})
  unfolding refuse_overwrite load_key signed_archive write_new_file
  run_sign args = do
    refuse_overwrite args.output
    signing_key ← reads (load_key args.signing_key args.signing_key_password_file)
    signed ← reads (λ s. signed_archive L (D.host s) (D.files s) args signing_key)
    bytes ← returned signed
    write_new_file args.output bytes
    println L (text "wrote " ∷ text args.output ∷ [])

  -- `run`
  unfoldable pub run : Command → Action S (Unit {0})
  unfolding run_check run_build run_sign
  run (check target) = run_check target
  run (build args) = run_build args
  run (sign args) = run_sign args

  -- The exit code; a panic exits with 101, that of `eprintln!` as well.
  unfoldable pub exit_code : Result Stop (Unit {0}) → ℕ
  unfolding show_error
  exit_code (ok done) = 0
  exit_code (err (failed e)) =
      if L.writes_error (show_error e) then (if is_validation e then 1 else 2) else 101
  exit_code (err panicked) = 101

  -- `main`, with the line on the standard error.
  unfoldable pub error_lines : Result Stop (Unit {0}) → List Message
  unfolding show_error
  error_lines (err (failed e)) = if L.writes_error (show_error e) then show_error e ∷ [] else []
  error_lines _ = []

  unfoldable pub main : Command → S → ℕ × (List Message × (List Message × S))
  unfolding run exit_code error_lines
  main command s =
      let (outcome, (lines, s')) = run command s in
      (exit_code outcome, (error_lines outcome, (lines, s')))
