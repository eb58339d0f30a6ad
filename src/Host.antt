-- ===== src/Host.antt =====
-- What the program takes from its surroundings to read manifests: the file system, UTF-8 and TOML
-- decoding and the Cedar name parser. An error is its text.
use treetop_bundle.Base.{ℕ, String, Bool, List}
use treetop_bundle.Error.{Result}

-- src/manifest.rs: `RawModuleManifest`
pub record RawModuleManifest : Type 0 where
  pub format_version : ℕ
  pub name : String
  pub namespace : String
  pub imports : List String
  pub policies : List String
  pub schemas : List String
  pub labels : List String

-- `ModuleRole`
pub data ModuleRole : Type 0 where
  ordinary global : ModuleRole

-- `RawModuleSelection`
pub record RawModuleSelection : Type 0 where
  pub manifest : String
  pub role : ModuleRole

-- `RawBundleManifest`
pub record RawBundleManifest : Type 0 where
  pub format_version : ℕ
  pub name : String
  pub modules : List RawModuleSelection

pub record Host : Type 0 where
  -- `fs::read`
  pub read : String → Result String (List ℕ)
  -- `str::from_utf8`
  pub from_utf8 : List ℕ → Result String String
  -- `Path::canonicalize`, `Path::is_file`
  pub canonicalize : String → Result String String
  pub is_file : String → Bool
  -- `toml::from_str`
  pub module_from_toml : String → Result String RawModuleManifest
  pub bundle_from_toml : String → Result String RawBundleManifest
  -- `value.parse::<EntityTypeName>().is_ok()`
  pub is_type_name : String → Bool
