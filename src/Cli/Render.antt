-- ===== src/Cli/Render.antt =====
-- The diagnostics of a check on the standard output, and the verdict on them.
use treetop_bundle.Cli.Arguments.{json_format, human_format, OutputFormat, CommonCheckArgs}
use treetop_bundle.Error.{
  serialization, map_err, ok, is_validation, err, Result, validation, BundleError, show_error,
}
use treetop_bundle.Base.{
  if◌then◌else◌, String, Bool, not, ◌&&◌, ◌||◌, Option, none, some, List, [], ◌∷◌, map, any,
}
use treetop_bundle.Diagnostic.{
  error, warning_severity, is_warning, is_error, error_severity, Message, Diagnostic,
  DiagnosticSeverity, text, say,
}
use treetop_bundle.Cli.World.{
  println, println_each, CommandOutput, lift, Libraries, Action, ◌>>=◌, ◌>>◌,
}

-- `{:?}` of a severity
unfoldable pub show_severity : DiagnosticSeverity → String
show_severity error_severity = "Error"
show_severity warning_severity = "Warning"

-- `.or(..)`, `.unwrap_or(..)`
unfoldable pub location_of : Option String → Option String → String
location_of (some path) name = path
location_of none (some name) = name
location_of none none = "bundle"

-- The line of a diagnostic.
unfoldable pub diagnostic_line : Diagnostic → Message
unfolding show_severity location_of
diagnostic_line d =
    text (show_severity d.severity)
    ∷ text " ["
    ∷ text d.code
    ∷ text "] "
    ∷ text (location_of d.path d.module_name)
    ∷ text ": "
    ∷ d.message

unfoldable pub is_invalid : Bool → List Diagnostic → Bool
is_invalid deny_warnings ds = any (λ d. is_error d || (deny_warnings && is_warning d)) ds

-- The diagnostics of an error of content.
unfoldable pub content_diagnostics : BundleError → List Diagnostic
unfolding show_error
content_diagnostics (validation ds) = ds
content_diagnostics other = error "bundle.invalid_content" (show_error other) ∷ []

module _ (L : Libraries) {S : Type 0} where
  unfoldable pub print_check : OutputFormat → Bool → CommandOutput → Action S (Unit {0})
  unfolding diagnostic_line
  print_check human_format invalid output = do
    println_each L (map diagnostic_line output.diagnostics)
    println_each L (if invalid then [] else say "valid" ∷ [])
  print_check json_format invalid output = do
    line ← lift (map_err (λ e. serialization (say e)) (L.output_to_string output))
    println L (say line)

  -- `render_check`
  unfoldable pub render_check :
      CommonCheckArgs → List Diagnostic → Option String → Option String → Action S (Unit {0})
  unfolding is_invalid print_check
  render_check common ds bundle_id archive_sha256 = do
    let invalid = is_invalid common.deny_warnings ds
    print_check common.format invalid (record {
      valid = not invalid;
      diagnostics = ds;
      bundle_id = bundle_id;
      archive_sha256 = archive_sha256;
    })
    lift (if invalid then err (validation ds) else ok tt)

  -- `render_content_error`
  unfoldable pub render_content_error : CommonCheckArgs → BundleError → Action S (Unit {0})
  unfolding content_diagnostics render_check
  render_content_error common e =
      if is_validation e
      then render_check common (content_diagnostics e) none none
      else lift (err e)

  -- `render_policy_check`
  unfoldable pub render_policy_check :
      CommonCheckArgs → Result BundleError (List Diagnostic) → Action S (Unit {0})
  unfolding render_check render_content_error
  render_policy_check common (ok ds) = render_check common ds none none
  render_policy_check common (err e) = render_content_error common e
