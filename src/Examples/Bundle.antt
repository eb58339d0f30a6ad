-- ===== src/Examples/Bundle.antt =====
-- A Cedar without policies, an unsigned archive and the manifest that describes it.
use treetop_bundle.Base.{String, true, false, none, [], ◌∷◌}
use treetop_bundle.Error.{Result, ok}
use treetop_bundle.Host.{ordinary}
use treetop_bundle.Json.{null}
use treetop_bundle.Signing.Crypto.{Bytes}
use treetop_bundle.Validation.ArchiveParts.{BundleParts, schema_skipped}
use treetop_bundle.Validation.Cedar.{Cedar}
use treetop_bundle.Validation.Compile.{Printing}
use treetop_bundle.Archive.Limits.{ArchiveLimits}
use treetop_bundle.Archive.Manifest.{ArchiveManifest}
use treetop_bundle.Archive.Decode.{Codec, DecodedArchive, TarEntry}
use treetop_bundle.Archive.Encode.{Writer}
use treetop_bundle.Archive.Validate.{Reader}
use treetop_bundle.Examples.Keys.{example_signature}
use treetop_bundle.Examples.Inputs.{example_engine}

abbrev pub example_cedar : Cedar
example_cedar = record {
  Schema = Unit;
  SchemaFragment = Unit;
  parse_policies = λ source. ok (record { policies = []; num_of_templates = 0 });
  empty_set = record { policies = []; num_of_templates = 0 };
  add_policy = λ set id policy. ok set;
  schema_from_json = λ value. ok tt;
  schema_from_fragment = λ fragment. ok tt;
  fragment_from_json = λ source. ok tt;
  fragment_from_cedarschema = λ source. ok (tt, []);
  fragment_to_json = λ fragment. ok null;
  validate = λ schema set. record { errors = []; warnings = [] };
  entity_types = λ schema. [];
  type_name = λ kind. none;
  labels_from_json = λ source. ok [];
  value_from_json = λ source. ok null;
}

abbrev pub example_printing : Printing
example_printing = record {
  show_number = λ n. "";
  show_json = λ value. "";
  same_json = λ v w. false;
}

abbrev pub example_writer : Writer
example_writer = record {
  to_vec = λ value. [];
  target_json = λ target. null;
  text_bytes = λ text. [];
}

abbrev pub example_manifest : ArchiveManifest
example_manifest = record {
  format_version = 2;
  bundle_id = "10";
  name = "bundle";
  generator = record { treetop_bundle_version = "0.3.0"; treetop_core = "0.3.0"; cedar = "4.13.0" };
  modules =
      record { name = "users"; namespace = "Users"; imports = []; role = ordinary; policy_ids = [] }
      ∷ [];
  policy_ids = [];
  artifacts =
      record { path = "policies.cedar"; size = 0; sha256 = "10" }
      ∷ record { path = "labels.json"; size = 0; sha256 = "10" }
      ∷ [];
}

abbrev pub example_reader : Reader
example_reader = record {
  manifest_from_json = λ source. ok example_manifest;
  signature_from_json = λ source. ok example_signature;
}

abbrev pub example_decoded : DecodedArchive
example_decoded = record {
  manifest = 1 ∷ [];
  signature = none;
  policies = [];
  schema = none;
  labels = [];
}

abbrev entry : String → Bytes → Result String TarEntry
entry path contents =
    ok (record { regular = true; path = ok path; is_utf8 = true; contents = ok contents })

-- Whatever the bytes, they hold the same three entries, and one byte of the limit is left.
abbrev pub example_codec : Codec
example_codec = record {
  read = λ bytes limit. record {
    entries =
        ok (
          entry "manifest.json" (1 ∷ []) ∷ entry "policies.cedar" [] ∷ entry "labels.json" [] ∷ []);
    drained = ok tt;
    remaining = 1;
    position = 2;
  };
  tar = λ entries. ok [];
  gzip = λ tar. ok [];
}

abbrev pub example_limits : ArchiveLimits
example_limits = record { max_compressed_bytes = 10; max_uncompressed_bytes = 20 }

-- What is read of the archive: no policies and no labels, for want of a schema with a warning.
abbrev pub example_parts : BundleParts example_engine
example_parts = record {
  name = "bundle";
  modules = example_manifest.modules;
  policies = "";
  schema_json = none;
  labels = [];
  policy_ids = [];
  diagnostics = schema_skipped ∷ [];
}
