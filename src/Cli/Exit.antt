-- ===== src/Cli/Exit.antt =====
-- The program never panics.
use treetop_bundle.Json.{Json}
use treetop_bundle.Cli.Returns.{validated_archive-returns, signed_archive-returns}
use treetop_bundle.Cli.Inputs.{ReadBundle}
use treetop_bundle.Diagnostic.{Message, text, Diagnostic}
use treetop_bundle.Cli.NeverPanics.{
  returned_then-NeverPanics, reads_then-NeverPanics, observe_then-NeverPanics, reads-NeverPanics,
  println_each-NeverPanics, println-NeverPanics, changes-NeverPanics, >>=-NeverPanics, NeverPanics,
}
use treetop_bundle.Error.{show_error, is_validation, ok, err, BundleError, Result}
use treetop_bundle.Host.{Host}
use treetop_bundle.Signing.Crypto.{Bytes}
use treetop_bundle.Cli.Arguments.{
  check_archive_target, check_bundle_target, json_format, sign, check_module_target, human_format,
  build, check_policy_target, check, CheckTarget, OutputFormat, BuildArgs, CommonCheckArgs, Command,
  SignArgs,
}
use treetop_bundle.Cli.Run.{
  path_line, built_line, refuse_overwrite, check_archive, render_archive, run_check, run, exit_code,
  run_sign, run_build, main, finish_build, write_new_file,
}
use treetop_bundle.Cli.Render.{render_content_error, print_check, render_policy_check, render_check}
use treetop_bundle.Base.{
  some, true, ◌≡◌, ◌∙◌, inr, ap, [], inl, arith, ◌∷◌, none, Bool-cases, Option, Bool, ◌≤◌, List,
  String, ◌≢◌, refl,
}
use treetop_bundle.Cli.World.{
  failed, panicked, println, CommandOutput, Stop, Console, Disk, Libraries, ◌>>◌,
}

module _ (L : Libraries) where
  -- The path of a new archive can be printed in the format.
  abbrev Names : OutputFormat → String → Type 0
  Names human_format output = Unit {0}
  Names json_format output = L.path_to_json output ≢ none

  -- What the command says of its output can be printed.
  abbrev pub CanReport : Command → Type 0
  CanReport (check target) = Unit {0}
  CanReport (build args) = Names args.format args.output
  CanReport (sign args) = Unit {0}

module _ (L : Libraries) {S : Type 0} (D : Disk S) (console : Console)
    (writes : (line : Message) → L.writes_line line ≡ true) where
  print_check-NeverPanics :
      (format : OutputFormat) (invalid : Bool) (output : CommandOutput)
      → NeverPanics (print_check L {S = S} format invalid output)
  unfolding print_check
  print_check-NeverPanics human_format invalid output =
      >>=-NeverPanics _ _ (println_each-NeverPanics L writes _)
        (λ done. println_each-NeverPanics L writes _)
  print_check-NeverPanics json_format invalid output =
      >>=-NeverPanics _ _ (reads-NeverPanics _) (λ line. println-NeverPanics L writes _)

  render_check-NeverPanics :
      (common : CommonCheckArgs) (ds : List Diagnostic) (id sha : Option String)
      → NeverPanics (render_check L {S = S} common ds id sha)
  unfolding render_check
  render_check-NeverPanics common ds id sha =
      >>=-NeverPanics _ _ (print_check-NeverPanics common.format _ _) (λ done. reads-NeverPanics _)

  content_error-NeverPanics :
      (common : CommonCheckArgs) (e : BundleError)
      → NeverPanics (render_content_error L {S = S} common e)
  unfolding render_content_error
  content_error-NeverPanics common e s = elim (Bool-cases (is_validation e)) [
    | inl valid ↦ rw valid (render_check-NeverPanics common _ none none s)
    | inr other ↦ rw other (reads-NeverPanics _ s)
  ]

  policy_check-NeverPanics :
      (common : CommonCheckArgs) (r : Result BundleError (List Diagnostic))
      → NeverPanics (render_policy_check L {S = S} common r)
  unfolding render_policy_check
  policy_check-NeverPanics common (ok ds) = render_check-NeverPanics common ds none none
  policy_check-NeverPanics common (err e) = content_error-NeverPanics common e

  write_new_file-NeverPanics :
      (path : String) (contents : Bytes) → NeverPanics (write_new_file L D console path contents)
  unfolding write_new_file
  write_new_file-NeverPanics path contents =
      >>=-NeverPanics _ _ (changes-NeverPanics _) (λ done. changes-NeverPanics _)

  archive-NeverPanics :
      (host : Host) (common : CommonCheckArgs) (r : Result BundleError (Option (ReadBundle L host)))
      → r ≢ ok none
      → NeverPanics (render_archive L D console host common r)
  unfolding render_archive
  archive-NeverPanics host common (ok o) h =
      returned_then-NeverPanics o _ (λ e. h (ap ok e))
        (λ bundle. render_check-NeverPanics common _ _ _)
  archive-NeverPanics host common (err e) h = content_error-NeverPanics common e

  run_check-NeverPanics : (target : CheckTarget) → NeverPanics (run_check L D console target)
  unfolding run_check check_archive
  run_check-NeverPanics (check_policy_target args) =
      >>=-NeverPanics _ _ (reads-NeverPanics _)
        (λ checked. render_check-NeverPanics args.common checked none none)
  run_check-NeverPanics (check_module_target args) =
      observe_then-NeverPanics _ _ (λ s. policy_check-NeverPanics args.common _ s)
  run_check-NeverPanics (check_bundle_target args) =
      observe_then-NeverPanics _ _ (λ s. policy_check-NeverPanics args.common _ s)
  run_check-NeverPanics (check_archive_target args) =
      >>=-NeverPanics _ _ (reads-NeverPanics _) (λ store s.
        archive-NeverPanics (D.host s) args.common _
          (validated_archive-returns L (D.host s) (D.files s) args store) s)

  path_line-ne :
      (archive : Bytes) (path : Option Json)
      → path ≢ none
      → path_line L D console archive path ≢ none
  unfolding path_line
  path_line-ne archive none named h = named refl
  path_line-ne archive (some path) named h = cc

  built_line-ne :
      (format : OutputFormat) (output : String) (archive : Bytes)
      → Names L format output
      → built_line L D console format output archive ≢ none
  unfolding built_line
  built_line-ne human_format output archive named = λ h. cc
  built_line-ne json_format output archive named =
      path_line-ne archive (L.path_to_json output) named

  finish_build-NeverPanics :
      (args : BuildArgs) (r : Result BundleError Bytes)
      → CanReport L (build args)
      → NeverPanics (finish_build L D console args r)
  unfolding finish_build
  finish_build-NeverPanics args (ok archive) named =
      >>=-NeverPanics _ _ (write_new_file-NeverPanics args.output archive) (λ done.
        returned_then-NeverPanics (built_line L D console args.format args.output archive) _
          (built_line-ne args.format args.output archive named)
          (λ line. println-NeverPanics L writes line))
  finish_build-NeverPanics args (err e) named = content_error-NeverPanics _ e

  run_build-NeverPanics :
      (args : BuildArgs) → CanReport L (build args) → NeverPanics (run_build L D console args)
  unfolding run_build refuse_overwrite
  run_build-NeverPanics args named = >>=-NeverPanics _ _ (reads-NeverPanics _) (λ done.
      >>=-NeverPanics _ _ (reads-NeverPanics _)
        (λ secret. observe_then-NeverPanics _ _ (λ s. finish_build-NeverPanics args _ named s)))

  write_signed-NeverPanics :
      (args : SignArgs) (bytes : Bytes)
      → NeverPanics (
          write_new_file L D console args.output bytes
          >> println L (text "wrote " ∷ text args.output ∷ []))
  write_signed-NeverPanics args bytes =
      >>=-NeverPanics _ _ (write_new_file-NeverPanics args.output bytes)
        (λ done. println-NeverPanics L writes _)

  run_sign-NeverPanics : (args : SignArgs) → NeverPanics (run_sign L D console args)
  unfolding run_sign refuse_overwrite
  run_sign-NeverPanics args = >>=-NeverPanics _ _ (reads-NeverPanics _) (λ done.
      >>=-NeverPanics _ _ (reads-NeverPanics _) (λ secret. reads_then-NeverPanics _ _ (λ s signed e.
        returned_then-NeverPanics signed _
          (λ absent. signed_archive-returns L (D.host s) (D.files s) args secret (e ∙ ap ok absent))
          (write_signed-NeverPanics args) s)))

  run-NeverPanics :
      (command : Command) → CanReport L command → NeverPanics (run L D console command)
  unfolding run
  run-NeverPanics (check target) named = run_check-NeverPanics target
  run-NeverPanics (build args) named = run_build-NeverPanics args named
  run-NeverPanics (sign args) named = run_sign-NeverPanics args

  exit_code-le :
      (outcome : Result Stop (Unit {0}))
      → ((line : Message) → L.writes_error line ≡ true)
      → outcome ≢ err panicked
      → exit_code L D console outcome ≤ 2
  unfolding exit_code
  exit_code-le (ok done) errors h = omega arith
  exit_code-le (err (failed e)) errors h = rw (errors (show_error e)) (ground arith)
  exit_code-le (err panicked) errors h = absurd (h refl)

  -- While the standard output and error can be written and the path of a new archive can be printed
  -- in the format asked for, every command exits with 0, 1 or 2, whatever the disk and the archive:
  -- neither the command nor the library panics.
  pub main-exits :
      (command : Command) (s : S)
      → ((line : Message) → L.writes_error line ≡ true)
      → CanReport L command
      → (main L D console command s).0 ≤ 2
  unfolding main
  main-exits command s errors named =
      exit_code-le (run L D console command s).0 errors (run-NeverPanics command named s)
