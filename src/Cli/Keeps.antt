-- ===== src/Cli/Keeps.antt =====
-- What the commands do to the files of the disk.
use treetop_bundle.Cli.Arguments.{sign, build, check, SignArgs, BuildArgs, Command}
use treetop_bundle.Cli.Run.{
  write_output, refuse_overwrite, create_output, write_new_file, run, main, run_build, finish_build,
  run_sign,
}
use treetop_bundle.Cli.Unchanged.{
  run_check-Unchanged, returned-Unchanged, observe-Unchanged, content_error-Unchanged,
  println-Unchanged, reads-Unchanged,
}
use treetop_bundle.Diagnostic.{say, Message}
use treetop_bundle.Signing.Crypto.{Bytes}
use treetop_bundle.Base.{[], ◌≡◌, refl, sym, subst, String, Option, none, some, List}
use treetop_bundle.Error.{io, map_err, BundleError, Result, ok, err}
use treetop_bundle.Cli.World.{
  stop_at, changes, Console, Libraries, continue, Stop, Disk, Action, ◌>>=◌,
}

-- What the file system documents: a file that `create_new` creates is a new one, and creating and
-- writing it changes no file that there was.
pub record Filing {S : Type 0} (D : Disk S) : Type 0 where
  pub content : S → String → Option Bytes
  pub create_fresh :
      (path : String) (s : S) → (D.create_new path s).0 ≡ ok tt → content s path ≡ none
  pub create_keeps :
      (path other : String) (s : S) {bytes : Bytes}
      → content s other ≡ some bytes
      → content (D.create_new path s).1 other ≡ some bytes
  pub write_keeps :
      (path other : String) (contents : Bytes) (s : S) {bytes : Bytes}
      → (D.create_new path s).0 ≡ ok tt
      → content s other ≡ some bytes
      → content (D.write_all path contents (D.create_new path s).1).1 other ≡ some bytes
  pub write_holds :
      (path : String) (contents : Bytes) (s : S)
      → (D.create_new path s).0 ≡ ok tt
      → (D.write_all path contents (D.create_new path s).1).0 ≡ ok tt
      → content (D.write_all path contents (D.create_new path s).1).1 path ≡ some contents

module _ {S : Type 0} (D : Disk S) (filing : Filing D) where
  -- Every file has afterwards the content that it had.
  abbrev pub Keeps : S → S → Type 0
  Keeps before after =
      (path : String) (bytes : Bytes)
      → filing.content before path ≡ some bytes
      → filing.content after path ≡ some bytes

  continue-Keeps :
      {A B : Type 0} (start : S) (f : A → Action S B) (p : Result Stop A × (List Message × S))
      → Keeps start p.1.1
      → ((a : A) (s : S) → Keeps s (f a s).1.1)
      → Keeps start (continue f p).1.1
  continue-Keeps start f (ok a, (lines, s)) before next path bytes h =
      next a s path bytes (before path bytes h)
  continue-Keeps start f (err e, (lines, s)) before next path bytes h = before path bytes h

  >>=-Keeps :
      {A B : Type 0} (m : Action S A) (f : A → Action S B)
      → ((s : S) → Keeps s (m s).1.1)
      → ((a : A) (s : S) → Keeps s (f a s).1.1)
      → (s : S) → Keeps s ((m >>= f) s).1.1
  unfolding ◌>>=◌
  >>=-Keeps m f before next s = continue-Keeps s f (m s) (before s) next

  same-Keeps : {before after : S} → after ≡ before → Keeps before after
  same-Keeps same path bytes h = subst (λ x. filing.content x path ≡ some bytes) (sym same) h

  module _ (L : Libraries) (console : Console) where
    created-Keeps :
        (path : String) (contents : Bytes) (s : S) (r : Result String (Unit {0}))
        → (D.create_new path s).0 ≡ r
        → Keeps s
            (continue {A = Unit {0}} {B = Unit {0}}
              (λ done. changes (write_output L D console path contents))
              (stop_at (map_err (λ e. io path (say e)) r), ([], (D.create_new path s).1))).1.1
    unfolding changes write_output
    created-Keeps path contents s (ok done) e other bytes h =
        filing.write_keeps path other contents s e h
    created-Keeps path contents s (err fault) e other bytes h = filing.create_keeps path other s h

    write_new_file-Keeps :
        (path : String) (contents : Bytes) (s : S)
        → Keeps s (write_new_file L D console path contents s).1.1
    unfolding write_new_file create_output ◌>>=◌ changes
    write_new_file-Keeps path contents s =
        created-Keeps path contents s (D.create_new path s).0 refl

    finish_build-Keeps :
        (args : BuildArgs) (r : Result BundleError Bytes) (s : S)
        → Keeps s (finish_build L D console args r s).1.1
    unfolding finish_build
    finish_build-Keeps args (ok archive) s =
        >>=-Keeps _ _ (write_new_file-Keeps args.output archive)
          (λ done s.
            >>=-Keeps _ _ (λ s. same-Keeps (returned-Unchanged _ s))
              (λ line s. same-Keeps (println-Unchanged L line s)) s)
          s
    finish_build-Keeps args (err e) s = same-Keeps (content_error-Unchanged L _ e s)

    run_build-Keeps : (args : BuildArgs) (s : S) → Keeps s (run_build L D console args s).1.1
    unfolding run_build refuse_overwrite
    run_build-Keeps args =
        >>=-Keeps _ _ (λ s. same-Keeps (reads-Unchanged _ s))
          (λ done.
            >>=-Keeps _ _ (λ s. same-Keeps (reads-Unchanged _ s))
              (λ secret.
                >>=-Keeps _ _ (λ s. same-Keeps (observe-Unchanged _ s)) (finish_build-Keeps args)))

    run_sign-Keeps : (args : SignArgs) (s : S) → Keeps s (run_sign L D console args s).1.1
    unfolding run_sign refuse_overwrite
    run_sign-Keeps args =
        >>=-Keeps _ _ (λ s. same-Keeps (reads-Unchanged _ s))
          (λ done.
            >>=-Keeps _ _ (λ s. same-Keeps (reads-Unchanged _ s))
              (λ secret.
                >>=-Keeps _ _ (λ s. same-Keeps (reads-Unchanged _ s))
                  (λ signed.
                    >>=-Keeps _ _ (λ s. same-Keeps (returned-Unchanged _ s))
                      (λ bytes.
                        >>=-Keeps _ _ (write_new_file-Keeps args.output bytes)
                          (λ done s. same-Keeps (println-Unchanged L _ s))))))

    run-Keeps : (command : Command) (s : S) → Keeps s (run L D console command s).1.1
    unfolding run
    run-Keeps (check target) s = same-Keeps (run_check-Unchanged L D console target s)
    run-Keeps (build args) s = run_build-Keeps args s
    run-Keeps (sign args) s = run_sign-Keeps args s

    -- Whatever the command does, and however it ends, every file that there was has the content
    -- that it had, on a disk whose new files are new.
    pub main-Keeps : (command : Command) (s : S) → Keeps s (main L D console command s).1.1.1
    unfolding main
    main-Keeps command s = run-Keeps command s
