-- ===== src/Lib.antt =====
-- Treetop bundles: the compiler, the archive format and the signatures of Cedar policy bundles.
--
-- A bundle manifest selects modules; each module manifest names a namespace, the namespaces that it
-- imports and its policy, schema and label files. `compile_manifest` checks all files and joins them
-- into bundle parts, `BundleArchive::build` writes the parts with a manifest of hashes and a
-- signature, and `BundleArchive::validate` reads an archive back and checks all of it again.
--
-- - Base and the modules below it: lists, texts, sorting and sets in order, and Boolean tests.
-- - Diagnostic (src/diagnostic.rs) and Error (src/error.rs): diagnostics, errors and results. A
--   formatted message is kept as the sequence of its pieces.
-- - FilePath: paths as the standard library reads them on Unix, on texts.
-- - Host: the raw manifests of src/manifest.rs, and the file system and decoders as parameters;
--   FileSystem: opened files and their metadata.
-- - Namespace (src/manifest.rs, `namespace_owns`): ownership of names and the search for overlaps.
-- - Manifest (src/manifest.rs): Manifest/Module has `ModuleManifest::from_path`, Manifest/Bundle has
--   `BundleManifest::from_path` and `validate_module_set`; Accepted, Loading and Selected have
--   what they guarantee.
-- - Json: JSON values and their maps as the program walks them.
-- - Labels (src/labels.rs): Rules has the data and `compile_patterns`, Limits the limits of
--   documents, Parse `LabelSet::from_raw`, Combine `LabelSet::combine`, Derive the labeler of
--   regular expression sets, Compiled what a labeler is made of, Accepted, Targets and Document what
--   an accepted document satisfies, Schema `record_attributes`.
-- - Validation (src/validation.rs): Normalize the texts, Policy `collect_expr_references`, Ownership
--   and StaysIn `validate_policy_ownership`, ModulePolicies, SchemaParts and Checks the checks of
--   single files, LabelSchema and SchemaSource `LabelSet::validate_schema` of src/labels.rs, Compile
--   and its Stages `compile_manifest`; Claims, Grows, CompiledFiles, Distinct, Recorded and Compiled
--   what it guarantees; ArchiveParts `validate_archive_parts`, Accepted what it accepts, Resolves the search
--   of `record_attributes` without fuel, PolicyCheck `check_policy` and `check_module`.
-- - Signing (src/signing.rs): Crypto has the libraries as a parameter and the signatures, Trust the
--   trust store, Keys `SigningKey` with PKCS#8 documents and private files; KeyMap has the map that
--   a store refines; Verify, Inserted and Loaded have what they guarantee.
-- - Archive (src/archive.rs): Limits, Read (`BundleArchive::read`), Manifest (`validate_manifest`),
--   Decode (`decode_archive`), Encode (`canonical_json_bytes`, `compute_bundle_id`, `build`) and
--   Validate (`validate_decoded`, `validate`, `resign`); Canonical, Built, Resigned and Signed have
--   what is written, Order, Consistent, Verified and Accepted what is accepted.
-- - Engine (src/engine.rs): the engines of either mode; Prepare has `prepare_engine` and its
--   variants of src/archive.rs, Mode what they keep.
-- - Builder (src/builder.rs): `BundleBuilder`.
-- - Cli (cli/src/main.rs): Arguments the parsed arguments, World the disk, the console and actions,
--   Render `render_check`, Keys `load_signing_key`, Inputs the calls of the library, Run the
--   commands and `main`. An action is a function of the disk's state to its outcome, the lines that
--   it prints and the next state; Keeps, Unchanged, Written, Exit, Rendered and Password have what
--   the commands guarantee.
-- - Examples: concrete surroundings and the theorems at concrete inputs.
--
-- A function that pushes to a vector of diagnostics is a function that returns what it pushes, and a
-- set that a loop fills is the list of its members. Machine words have 64 bits. The only fuel is
-- that of `record_attributes`: one more than the number of common types, since each is followed at
-- most once (Validation/Resolves).
--
-- Paths and messages are texts. The parameters say whether a path has a JSON value (one that is not
-- UTF-8 has none) and whether a line can be written to the standard output or error; where it cannot,
-- the command panics. That a line can be written does not depend on the lines before it.
--
-- Parameters stand for code of other packages: the file system and TOML (`Host`), Cedar and the
-- reading of JSON (`Cedar`, `Reader`), the printing of numbers and values (`Printing`), regular
-- expressions and label targets (`Engine`), cryptography (`Crypto`), the writing of JSON (`Writer`),
-- gzip and tar (`Codec`), PKCS#8 (`KeyDecoder`), Core's engines (`CoreTypes`, `PolicyEngine`, `Core`),
-- files (`Files`, `Disk`) and the console (`Console`).
--
-- Not modelled: the fields of a tar header; the parsing of arguments by clap; the `Debug` output; the
-- clearing of secrets in memory; panics of the libraries; the tests, benches and fuzz targets.
pub mod Base
pub mod Diagnostic
pub mod Error
pub mod FilePath
pub mod Host
pub mod FileSystem
pub mod Namespace
pub mod Manifest
pub mod Json
pub mod Labels
pub mod Validation
pub mod Signing
pub mod Archive
pub mod Engine
pub mod Builder
pub mod Cli
pub mod Examples
