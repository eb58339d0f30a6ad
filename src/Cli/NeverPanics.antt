-- ===== src/Cli/NeverPanics.antt =====
-- Actions that never panic.
use treetop_bundle.Diagnostic.{Message}
use treetop_bundle.Error.{ok, err, BundleError, Result}
use treetop_bundle.Base.{◌∷◌, true, [], some, none, List, Option, ◌≡◌, ◌≢◌, refl}
use treetop_bundle.Cli.World.{
  Libraries, continue, panicked, stop_at, Stop, returned, reads, observe, Action, println, changes,
  println_each, ◌>>=◌,
}

stop_at-NeverPanics : {A : Type 0} (r : Result BundleError A) → stop_at r ≢ err panicked
stop_at-NeverPanics (ok a) h = cc
stop_at-NeverPanics (err e) h = cc

pub ok-some-ne :
    {A : Type 0} {a : A} → ◌≡◌ {A = Result BundleError (Option A)} (ok (some a)) (ok none) → ⊥
ok-some-ne h = cc

module _ {S : Type 0} where
  -- Whatever the disk, the action does not panic.
  abbrev pub NeverPanics : {A : Type 0} → Action S A → Type 0
  NeverPanics m = (s : S) → (m s).0 ≢ err panicked

  continue-NeverPanics :
      {A B : Type 0} (f : A → Action S B) (p : Result Stop A × (List Message × S))
      → p.0 ≢ err panicked
      → ((a : A) → NeverPanics (f a))
      → (continue f p).0 ≢ err panicked
  continue-NeverPanics f (ok a, (lines, s)) start next h = next a s h
  continue-NeverPanics f (err e, (lines, s)) start next h = start cc

  pub >>=-NeverPanics :
      {A B : Type 0} (m : Action S A) (f : A → Action S B)
      → NeverPanics m
      → ((a : A) → NeverPanics (f a))
      → NeverPanics (m >>= f)
  unfolding ◌>>=◌
  >>=-NeverPanics m f start next s = continue-NeverPanics f (m s) (start s) next

  stopped-NeverPanics :
      {A B : Type 0} (s : S) (r : Result BundleError A) (g : A → Action S B)
      → ((a : A) → r ≡ ok a → (g a s).0 ≢ err panicked)
      → (continue g (stop_at r, ([], s))).0 ≢ err panicked
  stopped-NeverPanics s (ok a) g next h = next a refl h
  stopped-NeverPanics s (err e) g next h = cc

  -- A read, and what follows it.
  pub reads_then-NeverPanics :
      {A B : Type 0} (f : S → Result BundleError A) (g : A → Action S B)
      → ((s : S) (a : A) → f s ≡ ok a → (g a s).0 ≢ err panicked)
      → NeverPanics (reads f >>= g)
  unfolding ◌>>=◌ reads
  reads_then-NeverPanics f g next s = stopped-NeverPanics s (f s) g (next s)

  pub observe_then-NeverPanics :
      {A B : Type 0} (f : S → A) (g : A → Action S B)
      → ((s : S) → (g (f s) s).0 ≢ err panicked)
      → NeverPanics (observe f >>= g)
  unfolding ◌>>=◌ observe
  observe_then-NeverPanics f g next s = next s

  pub returned_then-NeverPanics :
      {A B : Type 0} (o : Option A) (g : A → Action S B)
      → o ≢ none
      → ((a : A) → NeverPanics (g a))
      → NeverPanics (returned o >>= g)
  unfolding ◌>>=◌ returned
  returned_then-NeverPanics (some a) g here next s h = next a s h
  returned_then-NeverPanics none g here next s h = here refl

  pub reads-NeverPanics : {A : Type 0} (f : S → Result BundleError A) → NeverPanics (reads f)
  unfolding reads
  reads-NeverPanics f s = stop_at-NeverPanics (f s)

  pub changes-NeverPanics :
      {A : Type 0} (f : S → Result BundleError A × S) → NeverPanics (changes f)
  unfolding changes
  changes-NeverPanics f s = stop_at-NeverPanics (f s).0

  module _ (L : Libraries) (writes : (line : Message) → L.writes_line line ≡ true) where
    pub println-NeverPanics : (line : Message) → NeverPanics (println L line)
    unfolding println
    println-NeverPanics line s = rw (writes line) (λ h. cc)

    pub println_each-NeverPanics : (lines : List Message) → NeverPanics (println_each L lines)
    unfolding println_each
    println_each-NeverPanics [] s = λ h. cc
    println_each-NeverPanics (line ∷ lines) s =
        >>=-NeverPanics (println L line) (λ done. println_each L lines) (println-NeverPanics line)
          (λ done. println_each-NeverPanics lines) s
