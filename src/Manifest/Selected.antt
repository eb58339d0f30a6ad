-- ===== src/Manifest/Selected.antt =====
-- What a bundle manifest that `BundleManifest::from_path` returns satisfies.
use treetop_bundle.Manifest.Loading.{IsGood, load_modules-Selects, AreSelected, load_modules-Keeps}
use treetop_bundle.Manifest.Accepted.{parent_or_error-eq-ok}
use treetop_bundle.Base.{
  some, is_empty, String, sym, List-cases, inl, inr, ◌≡◌, ◌≢◌, refl, true, false, [], ◌∷◌, List,
  ◌++◌, arith, All, AllPairs, map, contains, is_blank, append-eq-nil, when-eq-nil, unless-eq-nil,
  nat_beq→eq, subst, sort_by,
}
use treetop_bundle.Diagnostic.{say}
use treetop_bundle.Error.{map_err-eq-ok, manifest, io, ok, >>=-eq-ok, ok-injective, map_err}
use treetop_bundle.Host.{Host, RawModuleSelection, RawBundleManifest}
use treetop_bundle.FilePath.{parent}
use treetop_bundle.Manifest.Module.{supported_version, read_manifest, parent_or_error}
use treetop_bundle.Manifest.Accepted.{Distinct, Absent-cons}
use treetop_bundle.Manifest.Bundle.{
  ModuleSelection, BundleManifest, selection_name, selection_namespace, check_names, check_resolved,
  check_all_resolved, validate_module_set, Loaded, check_raw_bundle, load_modules, accept_bundle,
  bundle_from_path,
}

module _ (host : Host) where
  check_names-Distinct :
      (seen names : List String)
      → check_names seen names ≡ []
      → AllPairs (λ a b. a ≢ b) names × All (λ name. contains name seen ≡ false) names
  unfolding check_names
  check_names-Distinct seen [] h = (tt, tt)
  check_names-Distinct seen (name ∷ names) h =
      let (new, rest) = append-eq-nil _ _ h in
      let (distinct, absent) = check_names-Distinct (name ∷ seen) names rest in
      let (apart, older) = Absent-cons name seen names absent in
      ((apart, distinct), (when-eq-nil _ _ new, older))

  check_resolved-eq-nil :
      (namespaces : List String) (name : String) (imports : List String)
      → check_resolved namespaces name imports ≡ []
      → All (λ import. contains import namespaces ≡ true) imports
  unfolding check_resolved
  check_resolved-eq-nil namespaces name [] h = tt
  check_resolved-eq-nil namespaces name (import ∷ imports) h =
      let (here, there) = append-eq-nil _ _ h in
      (unless-eq-nil _ _ here, check_resolved-eq-nil namespaces name imports there)

  check_all_resolved-eq-nil :
      (namespaces : List String) (modules : List ModuleSelection)
      → check_all_resolved namespaces modules ≡ []
      → All (λ m. All (λ import. contains import namespaces ≡ true) m.manifest.imports) modules
  unfolding check_all_resolved
  check_all_resolved-eq-nil namespaces [] h = tt
  check_all_resolved-eq-nil namespaces (m ∷ modules) h =
      let (here, there) = append-eq-nil _ _ h in
      (
        check_resolved-eq-nil namespaces m.manifest.name m.manifest.imports here,
        check_all_resolved-eq-nil namespaces modules there,
      )

  some_selected :
      (directory : String) (raws : List RawModuleSelection) (ms : List ModuleSelection)
      → is_empty raws ≡ false
      → AreSelected host directory raws ms
      → ms ≢ []
  some_selected directory [] ms some_raw selected none_left = absurd cc
  some_selected directory (raw ∷ raws) [] some_raw selected none_left = absurd selected
  some_selected directory (raw ∷ raws) (m ∷ ms) some_raw selected none_left = cc

  -- A bundle manifest whose every check passed; `loaded` has its modules in the order selected by
  -- the manifest at the requested path, whose directory has the module manifests.
  pub record IsBundle (requested : String) (b : BundleManifest) : Type 0 where
    pub source : String
    pub source_read : read_manifest host requested ≡ ok source
    pub raw : RawBundleManifest
    pub decoded : host.bundle_from_toml source ≡ ok raw
    pub found : host.canonicalize requested ≡ ok b.path
    pub directory : String
    pub below : parent b.path ≡ some directory
    pub name_kept : b.name ≡ raw.name
    pub loaded : List ModuleSelection
    pub selected : AreSelected host directory raw.modules loaded
    pub some_module : loaded ≢ []
    pub version : b.format_version ≡ supported_version
    pub named : is_blank b.name ≡ false
    pub modules : b.modules ≡ sort_by selection_name loaded
    pub accepted : All (IsGood host) loaded
    pub distinct : Distinct (map selection_name loaded)
    pub resolved :
        All
          (λ m.
            All
              (λ import. contains import (map selection_namespace loaded) ≡ true)
              m.manifest.imports)
          loaded

  accept_bundle-eq-ok :
      (raw : RawBundleManifest) (path : String) (t : Loaded) (b : BundleManifest)
      → accept_bundle host raw path t ≡ ok b
      → (t.diagnostics ≡ [])
        × (validate_module_set t.modules ≡ [])
        × (b ≡ record {
          format_version = raw.format_version;
          name = raw.name;
          modules = sort_by selection_name t.modules;
          path = path;
        })
  unfolding accept_bundle
  accept_bundle-eq-ok raw path t b h =
      elim (List-cases (t.diagnostics ++ validate_module_set t.modules)) [
        | inl clean ↦
            let (a, v) = append-eq-nil t.diagnostics (validate_module_set t.modules) clean in
            (a, v, sym (ok-injective (rw clean at h)))
        | inr (d, ds, e) ↦ absurd (ground (arith, h, e))
      ]

  -- A bundle manifest that `BundleManifest::from_path` returns has the canonical path, the supported
  -- version and a name; its modules are the manifests read at the paths that its file selects, one
  -- for each selection and with its role, in the order of their names, and there is one at least;
  -- each was accepted by every check of module manifests; their names are distinct and every import
  -- is the namespace of a selected module.
  pub bundle_from_path-IsBundle :
      (requested : String) (b : BundleManifest)
      → bundle_from_path host requested ≡ ok b
      → IsBundle requested b
  unfolding bundle_from_path check_raw_bundle validate_module_set
  bundle_from_path-IsBundle requested b h =
      let (source, source_read, h1) = >>=-eq-ok (read_manifest host requested) _ h in
      let (raw, decoded, h2) =
        >>=-eq-ok (map_err (λ e. manifest requested (say e)) (host.bundle_from_toml source)) _ h1 in
      let (path, found, h3) =
        >>=-eq-ok (map_err (λ e. io requested (say e)) (host.canonicalize requested)) _ h2 in
      let (directory, below, h4) =
        >>=-eq-ok (parent_or_error host "bundle manifest must have a parent directory" path) _ h3 in
      let (t, loaded, h5) = >>=-eq-ok (load_modules host directory raw.modules _) _ h4 in
      let (clean, valid, made) = accept_bundle-eq-ok raw path t b h5 in
      let (accepted, before) = load_modules-Keeps host directory raw.modules _ t loaded tt in
      let (version, rest) = append-eq-nil _ _ (before clean) in
      let (name, some_raw) = append-eq-nil _ _ rest in
      let loop = load_modules-Selects host directory raw.modules _ t loaded clean tt in
      let (names, others) = append-eq-nil _ _ valid in
      let (_, resolved) = append-eq-nil _ _ others in
      subst (IsBundle requested) (sym made) (record {
        source = source;
        source_read = source_read;
        raw = raw;
        decoded = map_err-eq-ok _ (host.bundle_from_toml source) decoded;
        found = map_err-eq-ok _ (host.canonicalize requested) found;
        directory = directory;
        below = parent_or_error-eq-ok host _ path directory below;
        name_kept = refl;
        selected = subst (AreSelected host directory raw.modules) (sym loop.modules) loop.selected;
        some_module =
            some_selected directory raw.modules t.modules (when-eq-nil _ _ some_raw)
              (subst (AreSelected host directory raw.modules) (sym loop.modules) loop.selected);
        version = nat_beq→eq raw.format_version supported_version (unless-eq-nil _ _ version);
        named = when-eq-nil _ _ name;
        loaded = t.modules;
        modules = refl;
        accepted = accepted;
        distinct = (check_names-Distinct [] (map selection_name t.modules) names).0;
        resolved = check_all_resolved-eq-nil (map selection_namespace t.modules) t.modules resolved;
      })
