-- ===== src/Manifest/Module.antt =====
-- `ModuleManifest::from_path` and the checks of one module manifest.
use treetop_bundle.Base.{
  ℕ, String, Bool, not, ◌&&◌, ◌||◌, none, some, List, [], ◌∷◌, ◌++◌, map, any, is_empty,
  is_empty_text, is_blank, contains, nat_beq, any_char, if◌then◌else◌,
}
use treetop_bundle.Diagnostic.{Diagnostic, text, debug, number, say, error, in_module, at_path}
use treetop_bundle.Error.{BundleError, validation, manifest, io, Result, ok, err, ◌>>=◌, map_err}
use treetop_bundle.FilePath.{is_absolute, components, escapes, path_starts_with, join, parent}
use treetop_bundle.Host.{Host, RawModuleManifest}

-- src/lib.rs: `FORMAT_VERSION`
abbrev pub supported_version : ℕ
supported_version = 2

pub record ModuleManifest : Type 0 where
  pub format_version : ℕ
  pub name : String
  pub namespace : String
  pub imports : List String
  pub policies : List String
  pub schemas : List String
  pub labels : List String
  pub path : String
  pub directory : String

-- `ModuleManifest::input_path`
abbrev pub input_path : ModuleManifest → String → String
input_path m relative = join m.directory relative

-- `input.contains(['*', '?', '[', ']'])`
unfoldable pub has_glob : String → Bool
has_glob = any_char (λ c. nat_beq c b'*' || nat_beq c b'?' || nat_beq c b'[' || nat_beq c b']')

-- The tests on an input path before it is resolved.
unfoldable pub is_bad_input : String → Bool
unfolding has_glob
is_bad_input input =
    is_empty_text input || is_absolute input || any escapes (components input) || has_glob input

module _ (host : Host) where
  -- `validate_namespace`: the diagnostics that it pushes.
  unfoldable pub validate_namespace : String → String → List Diagnostic
  validate_namespace label value =
      if is_blank value
      then error "manifest.empty_namespace" (text label ∷ text " must not be empty" ∷ []) ∷ []
      else if not (host.is_type_name value)
      then error "manifest.invalid_namespace"
          (text label ∷ text " " ∷ debug value ∷ text " is not a valid Cedar name" ∷ [])
        ∷ []
      else []

  unfoldable pub check_canonical : String → String → Result String String → List Diagnostic
  check_canonical directory input (ok canonical) =
      if path_starts_with canonical directory && host.is_file canonical
      then []
      else error "manifest.input_escape"
          (text "module input path " ∷ debug input ∷ text " escapes the module directory" ∷ [])
        ∷ []
  check_canonical directory input (err e) =
      error "manifest.input_unreadable"
        (text "module input path " ∷ debug input ∷ text " cannot be resolved: " ∷ text e ∷ [])
      ∷ []

  -- `validate_input_path`: the diagnostics that it pushes.
  unfoldable pub validate_input_path : String → String → List Diagnostic
  unfolding is_bad_input check_canonical
  validate_input_path directory input =
      if is_bad_input input
      then error "manifest.invalid_input_path"
          (text "module input path " ∷ debug input ∷ text " must be an explicit relative path" ∷ [])
        ∷ []
      else check_canonical directory input (host.canonicalize (join directory input))

  -- The loop over the imports, with the set of those that it has met.
  unfoldable pub check_imports : List String → List String → List Diagnostic
  unfolding validate_namespace
  check_imports seen [] = []
  check_imports seen (import ∷ imports) =
      validate_namespace "module import" import
      ++ ((if contains import seen
            then error "manifest.duplicate_import" (text "duplicate import " ∷ debug import ∷ [])
              ∷ []
            else [])
          ++ check_imports (import ∷ seen) imports)

  unfoldable pub check_inputs : String → List String → List Diagnostic
  unfolding validate_input_path
  check_inputs directory [] = []
  check_inputs directory (input ∷ inputs) =
      validate_input_path directory input ++ check_inputs directory inputs

  -- All checks of `ModuleManifest::from_path`, in order.
  unfoldable pub check_raw_module : String → RawModuleManifest → List Diagnostic
  unfolding check_imports check_inputs validate_namespace
  check_raw_module directory raw =
      (if nat_beq raw.format_version supported_version
        then []
        else error "manifest.unsupported_version" (
            text "module format_version "
            ∷ number raw.format_version
            ∷ text " is unsupported; expected "
            ∷ number supported_version
            ∷ [])
          ∷ [])
      ++ ((if is_blank raw.name
            then error "manifest.empty_name" (say "module name must not be empty") ∷ []
            else [])
          ++ (validate_namespace "module namespace" raw.namespace
              ++ (check_imports [] raw.imports
                  ++ ((if contains raw.namespace raw.imports
                        then error "manifest.self_import"
                            (say "a module cannot import its own namespace")
                          ∷ []
                        else [])
                      ++ check_inputs directory (raw.policies ++ (raw.schemas ++ raw.labels))))))

  -- `fs::read` and `from_utf8`, with the errors of a manifest.
  unfoldable pub read_manifest : String → Result BundleError String
  read_manifest requested_path = do
    bytes ← map_err (λ e. io requested_path (say e)) (host.read requested_path)
    map_err (λ e. manifest requested_path (say e)) (host.from_utf8 bytes)

  -- The directory of the manifest; a root has none.
  unfoldable pub parent_or_error : String → String → Result BundleError String
  parent_or_error message path = elim (parent path) [
    | none ↦ err (validation (error "manifest.no_parent" (say message) ∷ []))
    | some directory ↦ ok directory
  ]

  unfoldable pub accept_module :
      String → String → String → RawModuleManifest → Result BundleError ModuleManifest
  unfolding check_raw_module
  accept_module requested_path path directory raw =
      let found = check_raw_module directory raw in
      if is_empty found
      then ok (record {
        format_version = raw.format_version;
        name = raw.name;
        namespace = raw.namespace;
        imports = raw.imports;
        policies = raw.policies;
        schemas = raw.schemas;
        labels = raw.labels;
        path = path;
        directory = directory;
      })
      else err (validation (map (λ d. at_path requested_path (in_module raw.name d)) found))

  -- `ModuleManifest::from_path`
  unfoldable pub module_from_path : String → Result BundleError ModuleManifest
  unfolding read_manifest parent_or_error accept_module
  module_from_path requested_path = do
    source ← read_manifest requested_path
    raw ← map_err (λ e. manifest requested_path (say e)) (host.module_from_toml source)
    path ← map_err (λ e. io requested_path (say e)) (host.canonicalize requested_path)
    directory ← parent_or_error "module manifest must have a parent directory" path
    accept_module requested_path path directory raw
