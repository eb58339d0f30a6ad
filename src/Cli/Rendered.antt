-- ===== src/Cli/Rendered.antt =====
-- The verdict of a check.
use treetop_bundle.Error.{ok-injective, validation, err, ok, Result}
use treetop_bundle.Cli.Arguments.{CommonCheckArgs, json_format, human_format, OutputFormat}
use treetop_bundle.Cli.World.{
  failed, continue, Stop, Action, CommandOutput, lift, println_each, println, reads, ◌>>=◌,
  Libraries,
}
use treetop_bundle.Cli.Render.{diagnostic_line, print_check, render_check, is_invalid}
use treetop_bundle.Diagnostic.{say, Message, has_warning, has_error, Diagnostic}
use treetop_bundle.Base.{
  ◌∙◌, sym, subst, All, map, Bool-cases, refl, inr, inl, true, String, Option, ◌&&◌, ◌||◌, ◌≡◌, ◌↔◌,
  ◌⊎◌, Bool, false, List, [], ◌∷◌, arith,
}

Result-cases : {E A : Type 0} (r : Result E A) → ((a : A) × (r ≡ ok a)) ⊎ ((e : E) × (r ≡ err e))
Result-cases (ok a) = inl (a, refl)
Result-cases (err e) = inr (e, refl)

-- No error, and no warning where warnings are denied.
abbrev pub IsClean : Bool → List Diagnostic → Type 0
IsClean deny_warnings ds =
    (has_error ds ≡ false) × ((deny_warnings ≡ false) ⊎ (has_warning ds ≡ false))

is_invalid_split :
    (deny : Bool) (ds : List Diagnostic)
    → is_invalid deny ds ≡ (has_error ds || (deny && has_warning ds))
unfolding is_invalid
is_invalid_split deny [] = ground arith
is_invalid_split deny (d ∷ ds) = ground (arith, is_invalid_split deny ds)

is_invalid_iff :
    (deny : Bool) (ds : List Diagnostic) → (is_invalid deny ds ≡ false) ↔ IsClean deny ds
is_invalid_iff deny ds = ground (arith, is_invalid_split deny ds)

continue-ok_iff :
    {S A B : Type 0} (f : A → Action S B) (p : Result Stop A × (List Message × S)) (b : B)
    → ((continue f p).0 ≡ ok b) ↔ ((a : A) × (p.0 ≡ ok a) × ((f a p.1.1).0 ≡ ok b))
continue-ok_iff f (ok a, (lines, s)) b =
    (λ h. (a, refl, h), λ (c, e, h). subst (λ x. (f x s).0 ≡ ok b) (sym (ok-injective e)) h)
continue-ok_iff f (err e, (lines, s)) b = (λ h. absurd cc, λ (c, bad, h). absurd cc)

module _ (L : Libraries) where
  -- Every line can be written to the standard output.
  abbrev AllWritten : List Message → Type 0
  AllWritten lines = All (λ line. L.writes_line line ≡ true) lines

  println_iff :
      {S : Type 0} (line : Message) (s : S)
      → ((println L line s).0 ≡ ok tt) ↔ (L.writes_line line ≡ true)
  unfolding println
  println_iff line s = elim (Bool-cases (L.writes_line line)) [
    | inl written ↦ (λ h. written, λ h. rw written refl)
    | inr lost ↦ (λ h. absurd (let h' = rw lost at h in cc), λ h. absurd cc)
  ]

  println_each_iff :
      {S : Type 0} (lines : List Message) (s : S)
      → ((println_each L lines s).0 ≡ ok tt) ↔ AllWritten lines
  unfolding println_each ◌>>=◌
  println_each_iff [] s = (λ h. tt, λ h. refl)
  println_each_iff (line ∷ lines) s =
      let (there, back) = continue-ok_iff (λ done. println_each L lines) (println L line s) tt in
      let (one, first) = println_iff line s in
      let (rest, others) = println_each_iff lines (println L line s).1.1 in
      (λ h. let (done, a, b) = there h in (one a, rest b), λ h. back (tt, first h.0, others h.1))

  -- The standard output takes the diagnostics of a valid check.
  abbrev pub CanPrint : OutputFormat → List Diagnostic → Option String → Option String → Type 0
  CanPrint human_format ds id sha =
      AllWritten (map diagnostic_line ds) × (L.writes_line (say "valid") ≡ true)
  CanPrint json_format ds id sha =
      (line : String) × (L.output_to_string
          (record { valid = true; diagnostics = ds; bundle_id = id; archive_sha256 = sha })
        ≡ ok line)
      × (L.writes_line (say line) ≡ true)

  abbrev output_of : Bool → List Diagnostic → Option String → Option String → CommandOutput
  output_of valid ds id sha = record {
    valid = valid;
    diagnostics = ds;
    bundle_id = id;
    archive_sha256 = sha;
  }

  print_check_iff :
      {S : Type 0} (format : OutputFormat) (ds : List Diagnostic) (id sha : Option String) (s : S)
      → ((print_check L format false (output_of true ds id sha) s).0 ≡ ok tt)
        ↔ CanPrint format ds id sha
  unfolding print_check ◌>>=◌ reads
  print_check_iff human_format ds id sha s =
      let lines = map diagnostic_line ds in
      let (there, back) =
        continue-ok_iff (λ done. println_each L (say "valid" ∷ [])) (println_each L lines s) tt in
      let (each, all) = println_each_iff lines s in
      let (valid, last) = println_each_iff (say "valid" ∷ []) (println_each L lines s).1.1 in
      (
        λ h. let (done, a, b) = there h in (each a, (valid b).0),
        λ h. back (tt, all h.0, last (h.1, tt)),
      )
  print_check_iff json_format ds id sha s =
      elim (Result-cases (L.output_to_string (output_of true ds id sha))) [
        | inl (line, e) ↦
            let (one, first) = println_iff (say line) s in
            (
              λ h. (line, e, one (rw e at h)),
              λ (other, e', written). rw e (
                  first (
                    subst (λ x. L.writes_line (say x) ≡ true) (ok-injective (sym e' ∙ e)) written)),
            )
        | inr (fault, e) ↦ (rw e (λ h. absurd cc), λ (line, e', written). absurd cc)
      ]

  -- A check succeeds exactly when there is no error among the diagnostics, no warning where
  -- warnings are denied, and the output can be made and written.
  pub render_check_iff :
      {S : Type 0} (common : CommonCheckArgs) (ds : List Diagnostic) (id sha : Option String)
      (s : S)
      → ((render_check L common ds id sha s).0 ≡ ok tt)
        ↔ (IsClean common.deny_warnings ds × CanPrint common.format ds id sha)
  unfolding render_check ◌>>=◌ reads
  render_check_iff {S} common ds id sha s =
      let (clean, unclean) = is_invalid_iff common.deny_warnings ds in
      elim (Bool-cases (is_invalid common.deny_warnings ds)) [
        | inl invalid ↦ (
          λ h.
              let h' = rw invalid at h in
              let stop : Action S (Unit {0}) = lift (err (validation ds)) in
              let (done, a, b) =
                (continue-ok_iff (λ done. stop)
                    (print_check L common.format true (output_of false ds id sha) s) tt).0
                  h' in
              absurd (
                let b' : ◌≡◌ {A = Result Stop (Unit {0})} (err (failed (validation ds))) (ok tt) =
                  b in
                cc),
          λ h. absurd (ground (arith, invalid, unclean h.0)),
        )
        | inr valid ↦
            let (printed, prints) = print_check_iff common.format ds id sha s in
            (
              λ h.
                  let h' = rw valid at h in
                  let (done, a, b) =
                    (continue-ok_iff (λ done. lift (ok tt))
                        (print_check L common.format false (output_of true ds id sha) s) tt).0
                      h' in
                  (clean valid, printed a),
              λ h. rw valid (
                  (continue-ok_iff (λ done. lift (ok tt))
                      (print_check L common.format false (output_of true ds id sha) s) tt).1
                    (tt, prints h.1, refl)),
            )
      ]
