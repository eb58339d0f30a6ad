-- ===== src/Archive/Manifest.antt =====
-- `ArchiveManifest` and `validate_manifest`.
use treetop_bundle.Base.{
  ℕ, String, Bool, not, false, ◌||◌, Option, none, some, List, [], ◌∷◌, map, contains, is_empty,
  is_blank, all_windows, nat_beq, str_ltb, ◌==◌, if◌then◌else◌,
}
use treetop_bundle.Diagnostic.{text, say, number}
use treetop_bundle.Error.{BundleError, archive, Result, ok, err, ◌>>=◌, ◌>>◌, refuse_if}
use treetop_bundle.Host.{Host}
use treetop_bundle.Manifest.Module.{supported_version}
use treetop_bundle.Namespace.{any_overlap}
use treetop_bundle.Validation.Ownership.{ModuleRecord}
use treetop_bundle.Validation.ArchiveParts.{same_set}

-- src/lib.rs: `CEDAR_VERSION`, `TREETOP_CORE_VERSION`; Cargo.toml: the version of the package.
abbrev pub cedar_version : String
cedar_version = "4.13.0"

abbrev pub treetop_core_version : String
treetop_core_version = "0.3.0"

abbrev pub package_version : String
package_version = "0.3.0"

pub record GeneratorRecord : Type 0 where
  pub treetop_bundle_version : String
  pub treetop_core : String
  pub cedar : String

pub record ArtifactRecord : Type 0 where
  pub path : String
  pub size : ℕ
  pub sha256 : String

pub record ArchiveManifest : Type 0 where
  pub format_version : ℕ
  pub bundle_id : String
  pub name : String
  pub generator : GeneratorRecord
  pub modules : List ModuleRecord
  pub policy_ids : List String
  pub artifacts : List ArtifactRecord

-- What the loop over the modules remembers.
pub record Seen : Type 0 where
  pub module_names : List String
  pub assigned_policy_ids : List String

-- An import that names no selected module, the module itself or one met before.
unfoldable pub bad_imports : List String → String → List String → List String → Bool
bad_imports selected namespace seen [] = false
bad_imports selected namespace seen (import ∷ imports) =
    not (contains import selected)
    || (import == namespace
        || (contains import seen || bad_imports selected namespace (import ∷ seen) imports))

-- The set with the identifiers, unless one is there already.
unfoldable pub assign_ids : List String → List String → Option (List String)
assign_ids assigned [] = some assigned
assign_ids assigned (id ∷ ids) =
    let rest = assign_ids (id ∷ assigned) ids in if contains id assigned then none else rest

unfoldable pub assigned_or_error : Option (List String) → Result BundleError (List String)
assigned_or_error (some assigned) = ok assigned
assigned_or_error none = err (archive (say "manifest assigns a policy ID more than once"))

module _ (host : Host) where
  -- One round of the loop over the modules.
  unfoldable pub check_record : List String → ModuleRecord → Seen → Result BundleError Seen
  unfolding bad_imports assign_ids assigned_or_error
  check_record selected m s = do
    refuse_if (is_blank m.name || (is_blank m.namespace || not (host.is_type_name m.namespace)))
        (archive (say "manifest contains an invalid module name or namespace"))
    refuse_if (contains m.name s.module_names)
        (archive (say "manifest contains duplicate module names"))
    refuse_if (bad_imports selected m.namespace [] m.imports)
        (archive (say "manifest contains an unresolved, self, or duplicate module import"))
    assigned ← assigned_or_error (assign_ids s.assigned_policy_ids m.policy_ids)
    ok (record { module_names = m.name ∷ s.module_names; assigned_policy_ids = assigned })

  unfoldable pub check_records : List String → List ModuleRecord → Seen → Result BundleError Seen
  unfolding check_record
  check_records selected [] s = ok s
  check_records selected (m ∷ modules) s = do
    s' ← check_record selected m s
    check_records selected modules s'

  unfoldable pub is_foreign : GeneratorRecord → Bool
  is_foreign g =
      not (g.treetop_bundle_version == package_version)
      || (not (g.treetop_core == treetop_core_version) || not (g.cedar == cedar_version))

  -- `validate_manifest`
  unfoldable pub validate_manifest : ArchiveManifest → Result BundleError (Unit {0})
  unfolding check_records is_foreign
  validate_manifest manifest = do
    refuse_if (not (nat_beq manifest.format_version supported_version))
        (archive (text "unsupported bundle format version " ∷ number manifest.format_version ∷ []))
    refuse_if (is_blank manifest.name) (archive (say "bundle manifest name must not be empty"))
    refuse_if (is_foreign manifest.generator)
        (archive (say "bundle generator dependency versions are unsupported"))
    refuse_if (is_empty manifest.modules)
        (archive (say "manifest must contain at least one module"))
    refuse_if (not (all_windows str_ltb (map (λ m. m.name) manifest.modules)))
        (archive (say "manifest modules are not ordered by name"))
    refuse_if (not (all_windows str_ltb manifest.policy_ids))
        (archive (say "manifest policy IDs must be sorted and unique"))
    let namespaces = map (λ m. m.namespace) manifest.modules
    s ←
        check_records namespaces manifest.modules
          (record { module_names = []; assigned_policy_ids = [] })
    refuse_if (any_overlap namespaces)
        (archive (say "manifest contains overlapping module namespaces"))
    refuse_if (not (same_set s.assigned_policy_ids manifest.policy_ids))
        (archive (say "manifest module policy assignments do not match policy_ids"))
