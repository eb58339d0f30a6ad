-- ===== src/Examples/Witnesses.antt =====
-- The theorems at concrete inputs.
use treetop_bundle.Base.{
  All, subst, ◌≤◌, ◌<◌, String, ◌≡◌, ◌↔◌, refl, true, false, none, some, List, [], ◌∷◌, arith,
  AllPairs, In, length, map, any_char, is_blank, sort_by, str_ltb, strip_prefix,
}
use treetop_bundle.Error.{ok-injective, ok}
use treetop_bundle.FilePath.{parent, is_absolute, components, escapes, join, path_starts_with}
use treetop_bundle.Namespace.{namespace_owns, namespaces_overlap, any_overlap}
use treetop_bundle.Namespace.Ownership.{Owns, namespace_owns_iff}
use treetop_bundle.Namespace.Adjacent.{sorts_after_colon, Disjoint, any_overlap_complete}
use treetop_bundle.Namespace.Missed.{any_overlap_misses}
use treetop_bundle.Manifest.Module.{validate_input_path, module_from_path}
use treetop_bundle.Manifest.Accepted.{
  IsSafeInput, IsAccepted, validate_input_path_iff, module_from_path-IsAccepted,
}
use treetop_bundle.Labels.Rules.{
  set, runtime_labeler, LabelPattern, compile_patterns, rule_target, max_label_rules,
  max_total_patterns, max_total_regex_bytes,
}
use treetop_bundle.Labels.Limits.{validate_limits, validate_limits_iff, sum, regex_sizes}
use treetop_bundle.Labels.Parse.{from_raw}
use treetop_bundle.Labels.Combine.{combine, concat}
use treetop_bundle.Labels.Derive.{
  ReportsPatterns, derive, returns, string_value, string_set, NamesAt, derive_total,
}
use treetop_bundle.Labels.Document.{AllAccept, from_raw_accepted}
use treetop_bundle.Labels.Targets.{DistinctTargets, patterns_of, combine_iff}
use treetop_bundle.Validation.Normalize.{
  normalize_text, single_line, is_carriage_return, is_line_break, normalize_text_idem,
  single_line-clean,
}
use treetop_bundle.Validation.Policy.{
  unary_op, is_type, other, Mentions, collect_expr_references, collect_expr_references_iff,
}
use treetop_bundle.Validation.Ownership.{validate_policy_ownership}
use treetop_bundle.Validation.StaysIn.{StaysIn, validate_policy_ownership_iff}
use treetop_bundle.Signing.Crypto.{sign_manifest}
use treetop_bundle.Signing.Trust.{verify}
use treetop_bundle.Signing.Verify.{IsVerified, verify_iff, verify-sign_manifest}
use treetop_bundle.Manifest.Bundle.{bundle_from_path}
use treetop_bundle.Manifest.Selected.{IsBundle, bundle_from_path-IsBundle}
use treetop_bundle.Signing.Inserted.{IsInserted, insert-IsInserted}
use treetop_bundle.Signing.Trust.{insert}
use treetop_bundle.Examples.Inputs.{
  first_index, example_target, example_bundle_host, example_bundle, example_host, example_module,
  example_pattern, example_engine, example_rule, example_raw_rule, example_record, example_policy,
}
use treetop_bundle.Examples.Keys.{
  example_crypto, example_crypto-IsSound, example_trusted, example_store, example_signature,
  example_key-found,
}
use treetop_bundle.Validation.ArchiveParts.{same_set}
use treetop_bundle.Archive.Limits.{u64_max, new_limits, new_limits_iff}
use treetop_bundle.Archive.Manifest.{validate_manifest}
use treetop_bundle.Archive.Consistent.{IsConsistent, validate_manifest_accepted}
use treetop_bundle.Archive.Decode.{DecodedArchive, decoded, decode_archive}
use treetop_bundle.Archive.Order.{IsDecoded, decode_archive_total}
use treetop_bundle.Archive.Validate.{allow_unsigned, validate_decoded}
use treetop_bundle.Archive.Verified.{IsValidated, validate_decoded_accepted}
use treetop_bundle.Examples.Bundle.{
  example_cedar, example_printing, example_writer, example_reader, example_manifest,
  example_decoded, example_codec, example_limits, example_parts,
}

namespace_owns_iff_example : (namespace_owns "A" "A::B" ≡ true) ↔ Owns "A" "A::B"
namespace_owns_iff_example = namespace_owns_iff "A" "A::B"

any_overlap_complete_example : AllPairs Disjoint ("B::C" ∷ "A" ∷ [])
unfolding sorts_after_colon any_overlap sort_by str_ltb namespaces_overlap strip_prefix
any_overlap_complete_example = any_overlap_complete ("B::C" ∷ "A" ∷ []) (refl, (refl, tt)) refl

any_overlap_misses_example :
    (any_overlap ("A" ∷ "A0" ∷ "A::B" ∷ []) ≡ false) × (namespaces_overlap "A" "A::B" ≡ true)
any_overlap_misses_example = any_overlap_misses "A" "" "B" "0" (omega arith)

validate_input_path_iff_example :
    (validate_input_path example_host "/b" "users.cedar" ≡ [])
    ↔ IsSafeInput example_host "/b" "users.cedar"
validate_input_path_iff_example = validate_input_path_iff example_host "/b" "users.cedar"

module_from_path-IsAccepted_example :
    IsAccepted example_host example_module
    × (example_host.canonicalize "users.toml" ≡ ok example_module.path)
    × (parent example_module.path ≡ some example_module.directory)
unfolding module_from_path parent is_blank is_absolute components escapes join path_starts_with
module_from_path-IsAccepted_example =
    module_from_path-IsAccepted example_host "users.toml" example_module refl

validate_limits_iff_example :
    (validate_limits "label document" ((example_pattern ∷ []) ∷ []) ≡ ok tt) ↔ (
      (length ((example_pattern ∷ []) ∷ []) ≤ max_label_rules)
      × (sum (map length ((example_pattern ∷ []) ∷ [])) ≤ max_total_patterns)
      × (sum (regex_sizes ((example_pattern ∷ []) ∷ [])) ≤ max_total_regex_bytes))
validate_limits_iff_example = validate_limits_iff "label document" ((example_pattern ∷ []) ∷ [])

combine_iff_example :
    (combine example_engine ((example_rule ∷ []) ∷ []) ≡ ok (concat ((example_rule ∷ []) ∷ []))) ↔ (
      (length (concat ((example_rule ∷ []) ∷ [])) ≤ max_label_rules)
      × (sum (map length (patterns_of example_engine (concat ((example_rule ∷ []) ∷ []))))
          ≤ max_total_patterns)
      × (sum (regex_sizes (patterns_of example_engine (concat ((example_rule ∷ []) ∷ []))))
          ≤ max_total_regex_bytes)
      × DistinctTargets (map (rule_target example_engine) (concat ((example_rule ∷ []) ∷ []))))
combine_iff_example = combine_iff example_engine ((example_rule ∷ []) ∷ [])

from_raw_accepted_example :
    AllAccept example_engine (example_raw_rule ∷ []) (example_rule ∷ [])
    × DistinctTargets (map (rule_target example_engine) (example_rule ∷ []))
unfolding from_raw is_blank
from_raw_accepted_example =
    from_raw_accepted example_engine (example_raw_rule ∷ []) (example_rule ∷ []) refl

abbrev many_patterns : List LabelPattern
many_patterns =
    example_pattern
    ∷ example_pattern
    ∷ example_pattern
    ∷ example_pattern
    ∷ record { name = "root"; regex = "^root" }
    ∷ []

example_engine-ReportsPatterns : ReportsPatterns example_engine
example_engine-ReportsPatterns [] size dfa_size compiled value h =
    subst (λ c. All (λ i. i < 0) (first_index c)) (ok-injective h) tt
example_engine-ReportsPatterns (source ∷ sources) size dfa_size compiled value h =
    subst (λ c. All (λ i. i < length (source ∷ sources)) (first_index c)) (ok-injective h)
      (omega arith, tt)

derive_total_example :
    (labels : List String) × (derive example_engine
        (map (λ p. p.name) many_patterns)
        (map (λ p. p.regex) many_patterns)
        (some (string_value "x"))
      ≡ returns (some (string_set labels)))
    × NamesAt
        (map (λ p. p.name) many_patterns)
        (example_engine.matches (map (λ p. p.regex) many_patterns) "x")
        labels
unfolding compile_patterns runtime_labeler
derive_total_example =
    derive_total example_engine example_engine-ReportsPatterns example_target example_target "name"
      "name" many_patterns (set (map (λ p. p.regex) many_patterns))
      (map (λ p. p.name) many_patterns) (map (λ p. p.regex) many_patterns) "x" refl refl

normalize_text_idem_example :
    (any_char is_carriage_return (normalize_text "permit\r\n\n") ≡ false)
    × (normalize_text (normalize_text "permit\r\n\n") ≡ normalize_text "permit\r\n\n")
normalize_text_idem_example = normalize_text_idem "permit\r\n\n"

single_line-clean_example : any_char is_line_break (single_line "a\nb") ≡ false
single_line-clean_example = single_line-clean "a\nb"

collect_expr_references_iff_example :
    In "Users::User" (collect_expr_references (unary_op (is_type "Users::User" other)))
    ↔ Mentions "Users::User" (unary_op (is_type "Users::User" other))
collect_expr_references_iff_example =
    collect_expr_references_iff "Users::User" (unary_op (is_type "Users::User" other))

validate_policy_ownership_iff_example :
    (validate_policy_ownership example_policy "users.read" example_record ≡ [])
    ↔ StaysIn example_record example_policy
validate_policy_ownership_iff_example =
    validate_policy_ownership_iff example_policy "users.read" example_record refl

verify_iff_example :
    (verify example_crypto example_store (7 ∷ []) example_signature ≡ ok "10")
    ↔ IsVerified example_crypto example_store (7 ∷ []) example_signature "10"
verify_iff_example = verify_iff example_crypto example_store (7 ∷ []) example_signature "10"

verify-sign_manifest_example :
    verify example_crypto example_store (7 ∷ []) (sign_manifest example_crypto tt (7 ∷ []))
    ≡ ok "10"
verify-sign_manifest_example =
    verify-sign_manifest example_crypto example_crypto-IsSound tt (7 ∷ []) example_store
      example_trusted example_key-found refl

new_limits_iff_example :
    (new_limits 10 20 ≡ ok (record { max_compressed_bytes = 10; max_uncompressed_bytes = 20 }))
    ↔ ((0 < 10) × (0 < 20) × (10 < u64_max) × (20 < u64_max))
new_limits_iff_example = new_limits_iff 10 20

validate_manifest_accepted_example : IsConsistent example_host example_manifest
unfolding validate_manifest is_blank any_overlap sort_by same_set
validate_manifest_accepted_example = validate_manifest_accepted example_host example_manifest refl

decode_archive_total_example :
    (a : DecodedArchive) × (decoded example_decoded ≡ decoded a)
    × IsDecoded example_codec (3 ∷ 4 ∷ []) example_limits a
unfolding decode_archive is_absolute components escapes
decode_archive_total_example =
    decode_archive_total example_codec (3 ∷ 4 ∷ []) example_limits (decoded example_decoded) refl

validate_decoded_accepted_example :
    IsValidated example_host example_cedar example_engine example_printing example_crypto
      example_writer example_reader allow_unsigned [] example_decoded example_manifest
      (record { signed = false; key_id = none })
      example_parts
unfolding validate_decoded is_blank any_overlap sort_by same_set from_raw
validate_decoded_accepted_example =
    validate_decoded_accepted example_host example_cedar example_engine example_printing
      example_crypto example_writer example_reader example_decoded allow_unsigned []
      example_manifest (record { signed = false; key_id = none }) example_parts refl

bundle_from_path-IsBundle_example : IsBundle example_bundle_host "bundle.toml" example_bundle
unfolding bundle_from_path module_from_path parent is_blank is_absolute components escapes join
    path_starts_with sort_by
bundle_from_path-IsBundle_example =
    bundle_from_path-IsBundle example_bundle_host "bundle.toml" example_bundle refl

insert-IsInserted_example : IsInserted example_crypto example_trusted [] example_store
unfolding insert
insert-IsInserted_example = insert-IsInserted example_crypto example_trusted [] example_store refl
