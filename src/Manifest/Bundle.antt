-- ===== src/Manifest/Bundle.antt =====
-- `BundleManifest::from_path`: the selected modules and the checks across them.
use treetop_bundle.Base.{
  ℕ, String, List, [], ◌∷◌, ◌++◌, map, is_empty, is_blank, contains, nat_beq, sort_by,
  if◌then◌else◌,
}
use treetop_bundle.Diagnostic.{Diagnostic, text, debug, number, say, error, in_module}
use treetop_bundle.Error.{BundleError, validation, manifest, io, Result, ok, err, ◌>>=◌, map_err}
use treetop_bundle.FilePath.{is_absolute, join}
use treetop_bundle.Host.{Host, RawModuleSelection, RawBundleManifest, ModuleRole, ordinary}
use treetop_bundle.Namespace.{namespaces_overlap, sort_texts}
use treetop_bundle.Manifest.Module.{
  ModuleManifest, supported_version, read_manifest, parent_or_error, module_from_path,
}

pub record ModuleSelection : Type 0 where
  pub manifest : ModuleManifest
  pub role : ModuleRole

pub record BundleManifest : Type 0 where
  pub format_version : ℕ
  pub name : String
  pub modules : List ModuleSelection
  pub path : String

abbrev pub selection_name : ModuleSelection → String
selection_name m = m.manifest.name

abbrev pub selection_namespace : ModuleSelection → String
selection_namespace m = m.manifest.namespace

-- The loop over the names, with the set of those that it has met.
unfoldable pub check_names : List String → List String → List Diagnostic
check_names seen [] = []
check_names seen (name ∷ names) =
    (if contains name seen
      then error "manifest.duplicate_module_name" (text "duplicate module name " ∷ debug name ∷ [])
        ∷ []
      else [])
    ++ check_names (name ∷ seen) names

-- The loop over `windows(2)` of the ordered namespaces.
unfoldable pub check_neighbours : List String → List Diagnostic
check_neighbours [] = []
check_neighbours (x ∷ []) = []
check_neighbours (x ∷ y ∷ rest) =
    (if namespaces_overlap x y
      then error "manifest.overlapping_namespaces"
          (text "module namespace roots " ∷ debug x ∷ text " and " ∷ debug y ∷ text " overlap" ∷ [])
        ∷ []
      else [])
    ++ check_neighbours (y ∷ rest)

-- The inner loop over one module's imports.
unfoldable pub check_resolved : List String → String → List String → List Diagnostic
check_resolved namespaces name [] = []
check_resolved namespaces name (import ∷ imports) =
    (if contains import namespaces
      then []
      else in_module name (
          error "manifest.unresolved_import"
            (text "import " ∷ debug import ∷ text " does not exactly match a selected module" ∷ []))
        ∷ [])
    ++ check_resolved namespaces name imports

unfoldable pub check_all_resolved : List String → List ModuleSelection → List Diagnostic
unfolding check_resolved
check_all_resolved namespaces [] = []
check_all_resolved namespaces (m ∷ modules) =
    check_resolved namespaces m.manifest.name m.manifest.imports
    ++ check_all_resolved namespaces modules

-- `validate_module_set`: the diagnostics that it pushes.
unfoldable pub validate_module_set : List ModuleSelection → List Diagnostic
unfolding check_names check_neighbours check_all_resolved
validate_module_set modules =
    let namespaces = map selection_namespace modules in
    check_names [] (map selection_name modules)
    ++ (check_neighbours (sort_texts namespaces) ++ check_all_resolved namespaces modules)

-- What the loop over the selected modules has gathered.
pub record Loaded : Type 0 where
  pub modules : List ModuleSelection
  pub diagnostics : List Diagnostic

-- The checks of the root manifest itself.
unfoldable pub check_raw_bundle : RawBundleManifest → List Diagnostic
check_raw_bundle raw =
    (if nat_beq raw.format_version supported_version
      then []
      else error "manifest.unsupported_version" (
          text "bundle format_version "
          ∷ number raw.format_version
          ∷ text " is unsupported; expected "
          ∷ number supported_version
          ∷ [])
        ∷ [])
    ++ ((if is_blank raw.name
          then error "manifest.empty_name" (say "bundle name must not be empty") ∷ []
          else [])
        ++ (if is_empty raw.modules
            then error "manifest.empty_modules" (say "bundle must select at least one module") ∷ []
            else []))

-- What one loaded module, or its failure, does to the loop's state.
unfoldable pub load_result :
    ModuleRole → Result BundleError ModuleManifest → Loaded → Result BundleError Loaded
load_result role (ok m) s =
    ok (record s { modules = s.modules ++ (record { manifest = m; role = role } ∷ []) })
load_result role (err (validation nested)) s =
    ok (record s { diagnostics = s.diagnostics ++ nested })
load_result role (err e) s = err e

module _ (host : Host) where
  -- One round of the loop over the selected modules.
  unfoldable pub load_module : String → RawModuleSelection → Loaded → Result BundleError Loaded
  unfolding load_result
  load_module directory selected s =
      if is_absolute selected.manifest
      then ok (record s {
        diagnostics =
            s.diagnostics
            ++ (error "manifest.absolute_module_path" (
                  text "module manifest path "
                  ∷ debug selected.manifest
                  ∷ text " must be relative"
                  ∷ [])
                ∷ []);
      })
      else load_result selected.role (module_from_path host (join directory selected.manifest)) s

  unfoldable pub load_modules :
      String → List RawModuleSelection → Loaded → Result BundleError Loaded
  unfolding load_module
  load_modules directory [] s = ok s
  load_modules directory (selected ∷ rest) s = do
    s' ← load_module directory selected s
    load_modules directory rest s'

  unfoldable pub accept_bundle :
      RawBundleManifest → String → Loaded → Result BundleError BundleManifest
  unfolding validate_module_set
  accept_bundle raw path loaded =
      let found = loaded.diagnostics ++ validate_module_set loaded.modules in
      if is_empty found
      then ok (record {
        format_version = raw.format_version;
        name = raw.name;
        modules = sort_by selection_name loaded.modules;
        path = path;
      })
      else err (validation found)

  -- `BundleManifest::from_path`
  unfoldable pub bundle_from_path : String → Result BundleError BundleManifest
  unfolding accept_bundle load_modules check_raw_bundle read_manifest parent_or_error
  bundle_from_path requested_path = do
    source ← read_manifest host requested_path
    raw ← map_err (λ e. manifest requested_path (say e)) (host.bundle_from_toml source)
    path ← map_err (λ e. io requested_path (say e)) (host.canonicalize requested_path)
    directory ← parent_or_error host "bundle manifest must have a parent directory" path
    loaded ←
        load_modules directory raw.modules
          (record { modules = []; diagnostics = check_raw_bundle raw })
    accept_bundle raw path loaded

-- `BundleManifest::for_single_module`
unfoldable pub for_single_module : ModuleManifest → BundleManifest
for_single_module m = record {
  format_version = supported_version;
  name = m.name;
  modules = record { manifest = m; role = ordinary } ∷ [];
  path = m.path;
}
