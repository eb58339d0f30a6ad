-- ===== src/Cli/Unchanged.antt =====
-- Actions that leave the disk as it is.
use treetop_bundle.Cli.Inputs.{ReadBundle}
use treetop_bundle.Host.{Host}
use treetop_bundle.Cli.Run.{check_archive, render_archive, run_check}
use treetop_bundle.Cli.Arguments.{
  check_archive_target, check_bundle_target, check_module_target, check_policy_target, json_format,
  CheckTarget, human_format, CommonCheckArgs, OutputFormat,
}
use treetop_bundle.Diagnostic.{Diagnostic, Message}
use treetop_bundle.Cli.Render.{render_content_error, print_check, render_check, render_policy_check}
use treetop_bundle.Base.{
  [], ◌∷◌, ◌∷◌, inr, inl, Bool-cases, Bool, ◌≡◌, refl, ◌∙◌, String, Option, none, some, List,
}
use treetop_bundle.Error.{is_validation, BundleError, Result, ok, err}
use treetop_bundle.Cli.World.{
  CommandOutput, continue, Console, Disk, println_each, returned, println, observe, reads,
  Libraries, Stop, Action, ◌>>=◌,
}

module _ {S : Type 0} where
  abbrev pub Unchanged : {A : Type 0} → Action S A → Type 0
  Unchanged m = (s : S) → (m s).1.1 ≡ s

  continue-Unchanged :
      {A B : Type 0} (f : A → Action S B) (p : Result Stop A × (List Message × S))
      → ((a : A) → Unchanged (f a))
      → (continue f p).1.1 ≡ p.1.1
  continue-Unchanged f (ok a, (lines, s)) next = next a s
  continue-Unchanged f (err e, (lines, s)) next = refl

  pub >>=-Unchanged :
      {A B : Type 0} (m : Action S A) (f : A → Action S B)
      → Unchanged m
      → ((a : A) → Unchanged (f a))
      → Unchanged (m >>= f)
  unfolding ◌>>=◌
  >>=-Unchanged m f start next s = continue-Unchanged f (m s) next ∙ start s

  pub reads-Unchanged : {A : Type 0} (f : S → Result BundleError A) → Unchanged (reads f)
  unfolding reads
  reads-Unchanged f s = refl

  pub observe-Unchanged : {A : Type 0} (f : S → A) → Unchanged (observe f)
  unfolding observe
  observe-Unchanged f s = refl

  pub returned-Unchanged : {A : Type 0} (o : Option A) → Unchanged (returned o)
  unfolding returned
  returned-Unchanged (some a) s = refl
  returned-Unchanged none s = refl

  pub println-Unchanged : (L : Libraries) (line : Message) → Unchanged (println L line)
  unfolding println
  println-Unchanged L line s = elim (Bool-cases (L.writes_line line)) [
    | inl written ↦ rw written refl
    | inr lost ↦ rw lost refl
  ]

  println_each-Unchanged : (L : Libraries) (lines : List Message) → Unchanged (println_each L lines)
  unfolding println_each
  println_each-Unchanged L [] s = refl
  println_each-Unchanged L (line ∷ lines) s =
      >>=-Unchanged (println L line) (λ done. println_each L lines) (println-Unchanged L line)
        (λ done. println_each-Unchanged L lines) s

  module _ (L : Libraries) where
    print_check-Unchanged :
        (format : OutputFormat) (invalid : Bool) (output : CommandOutput)
        → Unchanged (print_check L {S = S} format invalid output)
    unfolding print_check
    print_check-Unchanged human_format invalid output =
        >>=-Unchanged _ _ (println_each-Unchanged L _) (λ done. println_each-Unchanged L _)
    print_check-Unchanged json_format invalid output =
        >>=-Unchanged _ _ (reads-Unchanged _) (λ line. println-Unchanged L _)

    render_check-Unchanged :
        (common : CommonCheckArgs) (ds : List Diagnostic) (id sha : Option String)
        → Unchanged (render_check L {S = S} common ds id sha)
    unfolding render_check
    render_check-Unchanged common ds id sha =
        >>=-Unchanged _ _ (print_check-Unchanged common.format _ _) (λ done. reads-Unchanged _)

    pub content_error-Unchanged :
        (common : CommonCheckArgs) (e : BundleError)
        → Unchanged (render_content_error L {S = S} common e)
    unfolding render_content_error
    content_error-Unchanged common e s = elim (Bool-cases (is_validation e)) [
      | inl valid ↦ rw valid (render_check-Unchanged common _ none none s)
      | inr other ↦ rw other (reads-Unchanged _ s)
    ]

    policy_check-Unchanged :
        (common : CommonCheckArgs) (r : Result BundleError (List Diagnostic))
        → Unchanged (render_policy_check L {S = S} common r)
    unfolding render_policy_check
    policy_check-Unchanged common (ok ds) = render_check-Unchanged common ds none none
    policy_check-Unchanged common (err e) = content_error-Unchanged common e

    module _ (D : Disk S) (console : Console) where
      archive-Unchanged :
          (host : Host) (common : CommonCheckArgs)
          (r : Result BundleError (Option (ReadBundle L host)))
          → Unchanged (render_archive L D console host common r)
      unfolding render_archive
      archive-Unchanged host common (ok o) =
          >>=-Unchanged _ _ (returned-Unchanged o) (λ bundle. render_check-Unchanged common _ _ _)
      archive-Unchanged host common (err e) = content_error-Unchanged common e

      -- A check leaves the disk as it is.
      pub run_check-Unchanged : (target : CheckTarget) → Unchanged (run_check L D console target)
      unfolding run_check check_archive
      run_check-Unchanged (check_policy_target args) =
          >>=-Unchanged _ _ (reads-Unchanged _)
            (λ checked. render_check-Unchanged args.common checked none none)
      run_check-Unchanged (check_module_target args) =
          >>=-Unchanged _ _ (observe-Unchanged _) (policy_check-Unchanged args.common)
      run_check-Unchanged (check_bundle_target args) =
          >>=-Unchanged _ _ (observe-Unchanged _) (policy_check-Unchanged args.common)
      run_check-Unchanged (check_archive_target args) =
          >>=-Unchanged _ _ (reads-Unchanged _)
            (λ store s. archive-Unchanged (D.host s) args.common _ s)
