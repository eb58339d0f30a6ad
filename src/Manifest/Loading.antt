-- ===== src/Manifest/Loading.antt =====
-- What the loop over the selected modules loads.
use mathlib.Core.List.{append-nil, append_assoc}
use treetop_bundle.Base.{
  ◌∙◌, ap, String, sym, Bool-cases, inl, inr, ◌≡◌, ◌≢◌, refl, false, [], ◌∷◌, List, ◌++◌, arith,
  All, append-eq-nil, subst,
}
use treetop_bundle.Error.{
  BundleError, validation, manifest, json, io, key, signing_key_password_required, archive,
  size_limit, serialization, Result, ok, err, >>=-eq-ok, ok-injective,
}
use treetop_bundle.Host.{Host, RawModuleSelection, ModuleRole}
use treetop_bundle.FilePath.{is_absolute, join}
use treetop_bundle.Manifest.Module.{ModuleManifest, module_from_path}
use treetop_bundle.Manifest.Accepted.{module_from_path-ne, IsAccepted, module_from_path-IsAccepted}
use treetop_bundle.Manifest.Bundle.{ModuleSelection, Loaded, load_result, load_module, load_modules}

module _ (host : Host) where
  abbrev pub IsGood : ModuleSelection → Type 0
  IsGood m = IsAccepted host m.manifest

  All-snoc :
      (ms : List ModuleSelection) (m : ModuleSelection)
      → All IsGood ms
      → IsGood m
      → All IsGood (ms ++ (m ∷ []))
  All-snoc [] m a g = (g, tt)
  All-snoc (x ∷ ms) m a g = (a.0, All-snoc ms m a.1 g)

  -- The modules stay accepted, and diagnostics are never taken back.
  abbrev pub Keeps : Loaded → Loaded → Type 0
  Keeps s t = All IsGood t.modules × (t.diagnostics ≡ [] → s.diagnostics ≡ [])

  load_result-Keeps :
      (role : ModuleRole) (r : Result BundleError ModuleManifest) (s t : Loaded)
      → ((m : ModuleManifest) → r ≡ ok m → IsAccepted host m)
      → load_result role r s ≡ ok t
      → All IsGood s.modules
      → Keeps s t
  unfolding load_result
  load_result-Keeps role (ok m) s t good h a =
      subst (Keeps s) (ok-injective h) (All-snoc s.modules _ a (good m refl), λ clean. clean)
  load_result-Keeps role (err (validation nested)) s t good h a =
      subst (Keeps s) (ok-injective h) (a, λ clean. (append-eq-nil s.diagnostics nested clean).0)
  load_result-Keeps role (err (manifest path message)) s t good h a = absurd cc
  load_result-Keeps role (err (json path message)) s t good h a = absurd cc
  load_result-Keeps role (err (io path message)) s t good h a = absurd cc
  load_result-Keeps role (err (key message)) s t good h a = absurd cc
  load_result-Keeps role (err signing_key_password_required) s t good h a = absurd cc
  load_result-Keeps role (err (archive message)) s t good h a = absurd cc
  load_result-Keeps role (err (size_limit kind limit)) s t good h a = absurd cc
  load_result-Keeps role (err (serialization message)) s t good h a = absurd cc

  load_module-Keeps :
      (directory : String) (selected : RawModuleSelection) (s t : Loaded)
      → load_module host directory selected s ≡ ok t
      → All IsGood s.modules
      → Keeps s t
  unfolding load_module
  load_module-Keeps directory selected s t h a = elim (Bool-cases (is_absolute selected.manifest)) [
    | inl absolute ↦
        subst (Keeps s) (ok-injective (rw absolute at h))
          (a, λ clean. (append-eq-nil s.diagnostics _ clean).0)
    | inr relative ↦
        load_result-Keeps selected.role (module_from_path host (join directory selected.manifest)) s
          t (λ m found. (module_from_path-IsAccepted host _ m found).0)
          (ground (arith, h, relative)) a
  ]

  pub load_modules-Keeps :
      (directory : String) (raws : List RawModuleSelection) (s t : Loaded)
      → load_modules host directory raws s ≡ ok t
      → All IsGood s.modules
      → Keeps s t
  unfolding load_modules
  load_modules-Keeps directory [] s t h a = subst (Keeps s) (ok-injective h) (a, λ clean. clean)
  load_modules-Keeps directory (raw ∷ raws) s t h a =
      let (u, first, rest) = >>=-eq-ok (load_module host directory raw s) _ h in
      let (here, before) = load_module-Keeps directory raw s u first a in
      let (there, after) = load_modules-Keeps directory raws u t rest here in
      (there, λ clean. before (after clean))

  -- The modules are those of the selections, one for each and in order: with the role selected, and
  -- with the manifest that is read at the selected path below the directory.
  abbrev pub AreSelected : String → List RawModuleSelection → List ModuleSelection → Type 0
  AreSelected directory [] [] = Unit {0}
  AreSelected directory [] (m ∷ ms) = ⊥
  AreSelected directory (raw ∷ raws) [] = ⊥
  AreSelected directory (raw ∷ raws) (m ∷ ms) =
      ((is_absolute raw.manifest ≡ false)
        × (m.role ≡ raw.role)
        × (module_from_path host (join directory raw.manifest) ≡ ok m.manifest))
      × AreSelected directory raws ms

  -- The modules that the loop adds, when it reports nothing.
  pub record Selects (directory : String) (raws : List RawModuleSelection) (s t : Loaded)
      : Type 0 where
    pub added : List ModuleSelection
    pub modules : t.modules ≡ s.modules ++ added
    pub selected : AreSelected directory raws added

  load_result-Selects :
      (directory : String) (raw : RawModuleSelection) (r : Result BundleError ModuleManifest)
      (s t : Loaded)
      → is_absolute raw.manifest ≡ false
      → module_from_path host (join directory raw.manifest) ≡ r
      → r ≢ err (validation [])
      → load_result raw.role r s ≡ ok t
      → t.diagnostics ≡ []
      → Selects directory (raw ∷ []) s t
  unfolding load_result
  load_result-Selects directory raw (ok m) s t relative e some_error h clean =
      subst (Selects directory (raw ∷ []) s) (ok-injective h) (record {
        added = record { manifest = m; role = raw.role } ∷ [];
        modules = refl;
        selected = ((relative, refl, e), tt);
      })
  load_result-Selects directory raw (err (validation nested)) s t relative e some_error h clean =
      let all : s.diagnostics ++ nested ≡ [] =
        ap (λ (x : Loaded). x.diagnostics) (ok-injective h) ∙ clean in
      absurd
        (some_error (ap (λ ds. err (validation ds)) (append-eq-nil s.diagnostics nested all).1))
  load_result-Selects directory raw (err (manifest path message)) s t relative e some_error h
        clean =
      absurd cc
  load_result-Selects directory raw (err (json path message)) s t relative e some_error h clean =
      absurd cc
  load_result-Selects directory raw (err (io path message)) s t relative e some_error h clean =
      absurd cc
  load_result-Selects directory raw (err (key message)) s t relative e some_error h clean =
      absurd cc
  load_result-Selects directory raw (err signing_key_password_required) s t relative e some_error h
        clean =
      absurd cc
  load_result-Selects directory raw (err (archive message)) s t relative e some_error h clean =
      absurd cc
  load_result-Selects directory raw (err (size_limit kind limit)) s t relative e some_error h
        clean =
      absurd cc
  load_result-Selects directory raw (err (serialization message)) s t relative e some_error h
        clean =
      absurd cc

  load_module-Selects :
      (directory : String) (raw : RawModuleSelection) (s t : Loaded)
      → load_module host directory raw s ≡ ok t
      → t.diagnostics ≡ []
      → Selects directory (raw ∷ []) s t
  unfolding load_module
  load_module-Selects directory raw s t h clean = elim (Bool-cases (is_absolute raw.manifest)) [
    | inl absolute ↦
        let made = ok-injective (rw absolute at h) in
        let all = ap (λ (x : Loaded). x.diagnostics) made ∙ clean in
        absurd (let (_, bad) = append-eq-nil s.diagnostics _ all in cc)
    | inr relative ↦
        load_result-Selects directory raw (module_from_path host (join directory raw.manifest)) s t
          relative refl (module_from_path-ne host (join directory raw.manifest))
          (ground (arith, h, relative)) clean
  ]

  pub load_modules-Selects :
      (directory : String) (raws : List RawModuleSelection) (s t : Loaded)
      → load_modules host directory raws s ≡ ok t
      → t.diagnostics ≡ []
      → All IsGood s.modules
      → Selects directory raws s t
  unfolding load_modules
  load_modules-Selects directory [] s t h clean good =
      subst (Selects directory [] s) (ok-injective h)
        (record { added = []; modules = sym (append-nil s.modules); selected = tt })
  load_modules-Selects directory (raw ∷ raws) s t h clean good =
      let (u, first, rest) = >>=-eq-ok (load_module host directory raw s) _ h in
      let (here, _) = load_module-Keeps directory raw s u first good in
      let (_, before) = load_modules-Keeps directory raws u t rest here in
      let one = load_module-Selects directory raw s u first (before clean) in
      let later = load_modules-Selects directory raws u t rest clean here in
      joined directory raw raws s u t one.added one.modules one.selected later
    where
      joined :
          (directory : String) (raw : RawModuleSelection) (raws : List RawModuleSelection)
          (s u t : Loaded) (ms : List ModuleSelection)
          → u.modules ≡ s.modules ++ ms
          → AreSelected directory (raw ∷ []) ms
          → Selects directory raws u t
          → Selects directory (raw ∷ raws) s t
      joined directory raw raws s u t [] e none_left later = absurd none_left
      joined directory raw raws s u t (m ∷ []) e here later = record {
        added = m ∷ later.added;
        modules =
            later.modules
            ∙ ap (λ l. l ++ later.added) e
            ∙ append_assoc s.modules (m ∷ []) later.added;
        selected = (here.0, later.selected);
      }
      joined directory raw raws s u t (m ∷ n ∷ ms) e here later = absurd here.1
