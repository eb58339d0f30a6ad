-- ===== src/Examples/ArchiveWitnesses.antt =====
-- The theorems on built archives and on the search for attributes at concrete inputs.
use treetop_bundle.Archive.Resigned.{decode-resign}
use treetop_bundle.Archive.Accepted.{validate-IsTrusted, IsTrusted}
use treetop_bundle.Labels.Parse.{from_raw}
use treetop_bundle.Namespace.{any_overlap}
use treetop_bundle.Validation.Accepted.{validate_archive_parts-IsContained, IsContained}
use treetop_bundle.FilePath.{escapes, components, is_absolute}
use treetop_bundle.Validation.ArchiveParts.{same_set, validate_archive_parts}
use treetop_bundle.Examples.Bundle.{
  example_decoded, example_codec, example_reader, example_printing, example_cedar, example_limits,
  example_parts, example_writer, example_manifest,
}
use treetop_bundle.Archive.Canonical.{sort_json_idem, IsCanonical}
use treetop_bundle.Signing.KeyMap.{from_keys-refines, empty_map, add_all, result_map}
use treetop_bundle.Archive.Built.{decode-build}
use treetop_bundle.Archive.Validate.{
  resign, allow_unsigned, validate_decoded, validate, check_payload,
}
use treetop_bundle.Examples.Inputs.{example_host, example_engine}
use treetop_bundle.Examples.Stored.{
  resigning_codec-ReadsBack, example_resigned, resigning_codec, example_entries, example_validated,
  storing_codec-ReadsBack, example_written, storing_codec,
}
use treetop_bundle.Examples.Keys.{example_trusted, example_crypto}
use treetop_bundle.Signing.Trust.{from_keys, same_bytes}
use treetop_bundle.Validation.Resolves.{record_attributes_iff, Resolves}
use treetop_bundle.Validation.LabelSchema.{enough_fuel}
use treetop_bundle.Json.{field, null, end, object}
use treetop_bundle.Labels.Schema.{record_attributes}
use treetop_bundle.Archive.Encode.{
  sort_json, build, labels_json, schema_bytes, signed_bytes, artifact_entries, signature_entry,
  build_manifest, canonical_json_bytes,
}
use treetop_bundle.Examples.Commands.{example_archive}
use treetop_bundle.Base.{sort_by, is_blank, ◌∷◌, ◌≡◌, ◌↔◌, refl, none, [], arith}
use treetop_bundle.Archive.Decode.{decoded, decode_archive}
use treetop_bundle.Error.{ok}

decode-build_example :
    (build example_crypto example_writer
        (storing_codec [] example_entries)
        example_engine
        example_parts
        none
      ≡ ok [])
    × (decode_archive (storing_codec [] example_entries) [] example_limits
        ≡ ok (decoded example_written))
    × (check_payload example_host example_cedar example_engine example_printing example_crypto
          example_writer example_reader example_written
          (build_manifest example_crypto example_writer example_engine example_parts)
        ≡ ok tt)
unfolding canonical_json_bytes build_manifest signature_entry artifact_entries signed_bytes
    schema_bytes labels_json same_bytes
decode-build_example =
    decode-build example_crypto example_writer example_host example_cedar example_engine
      example_printing example_reader (storing_codec [] example_entries) example_parts none
      example_limits [] [] (storing_codec-ReadsBack [] example_entries) refl refl (omega arith)
      (omega arith) (omega arith)

record_attributes_iff_example :
    (record_attributes (object end) (enough_fuel (object end)) "Users" null [] ≡ none)
    ↔ Resolves (object end) "Users" null [] none
record_attributes_iff_example = record_attributes_iff (object end) "Users" null none

from_keys-refines_example :
    result_map example_crypto (from_keys example_crypto (example_trusted ∷ []))
    ≡ add_all example_crypto (example_trusted ∷ []) empty_map
from_keys-refines_example = from_keys-refines example_crypto (example_trusted ∷ [])

sort_json_idem_example :
    IsCanonical (sort_json (object (field "b" null (field "a" null end))))
    × (sort_json (sort_json (object (field "b" null (field "a" null end))))
        ≡ sort_json (object (field "b" null (field "a" null end))))
sort_json_idem_example = sort_json_idem (object (field "b" null (field "a" null end)))

validate_archive_parts-IsContained_example :
    IsContained example_cedar example_engine example_printing.show_json example_manifest.modules ""
      none [] []
unfolding validate_archive_parts same_set
validate_archive_parts-IsContained_example =
    validate_archive_parts-IsContained example_cedar example_engine example_printing.show_json
      "bundle" example_manifest.modules "" none [] [] example_parts refl

validate-IsTrusted_example :
    IsTrusted example_host example_cedar example_engine example_printing example_crypto
      example_writer example_reader example_codec example_archive allow_unsigned [] example_limits
      example_validated
unfolding validate decode_archive is_absolute components escapes validate_decoded is_blank
    any_overlap sort_by same_set from_raw
validate-IsTrusted_example =
    validate-IsTrusted example_host example_cedar example_engine example_printing example_crypto
      example_writer example_reader example_codec example_archive allow_unsigned [] example_limits
      example_validated refl

decode-resign_example :
    decode_archive resigning_codec [] example_limits ≡ ok (decoded example_resigned)
unfolding resign decode_archive is_absolute components escapes validate_decoded is_blank any_overlap
    sort_by same_set from_raw signature_entry artifact_entries same_bytes canonical_json_bytes
decode-resign_example =
    decode-resign example_crypto example_writer example_host example_cedar example_engine
      example_printing example_reader resigning_codec example_archive [] [] tt example_limits
      example_decoded resigning_codec-ReadsBack refl refl refl (omega arith) (omega arith)
      (omega arith)
