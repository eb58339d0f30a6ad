-- ===== src/Labels/Parse.antt =====
-- `LabelSet::from_raw`: the loop over the rules of a document and over the patterns of a rule.
use Prim.Native.String.{len}
use treetop_bundle.Base.{
  ℕ, suc, String, Bool, not, ◌&&◌, List, [], ◌∷◌, ◌++◌, map, length, leb, ltb, is_empty, is_blank,
  is_empty_text, contains, any, ◌==◌, if◌then◌else◌,
}
use treetop_bundle.Diagnostic.{Diagnostic, Message, text, debug, number, error}
use treetop_bundle.Error.{BundleError, validation, Result, ok, err, ◌>>◌}
use treetop_bundle.Labels.Rules.{
  LabelPattern, RawLabelRule, LabelTarget, Engine, CompiledPatterns, LabelRule, Runtime,
  compile_patterns, runtime_labeler, max_patterns_per_rule, max_regex_bytes,
}
use treetop_bundle.Labels.Limits.{validate_limits}

-- `Eq` on label targets.
unfoldable pub same_target : LabelTarget → LabelTarget → Bool
same_target t u = t.resource_type == u.resource_type && t.attribute == u.attribute

unfoldable pub duplicate_destination : LabelTarget → Diagnostic
duplicate_destination t = error "labels.duplicate_destination" (
    text "duplicate label destination ("
    ∷ text t.resource_type
    ∷ text ", "
    ∷ text t.attribute
    ∷ text ")"
    ∷ [])

-- `labels[{rule_index}]`
unfoldable pub rule_location : ℕ → Message
rule_location index = text "labels[" ∷ number index ∷ text "]" ∷ []

-- `{location}.patterns[{pattern_index}]`
unfoldable pub pattern_location : ℕ → ℕ → Message
unfolding rule_location
pattern_location rule index =
    rule_location rule ++ (text ".patterns[" ∷ number index ∷ text "]" ∷ [])

-- The regular expression of a pattern, which must not be empty or too long.
unfoldable pub check_regex : Message → String → List Diagnostic
check_regex location regex =
    if is_empty_text regex
    then error "labels.empty_regex" (location ++ (text ".regex must not be empty" ∷ [])) ∷ []
    else if ltb max_regex_bytes (len regex)
    then error "labels.regex_too_large"
        (location ++ (text ".regex exceeds " ∷ number max_regex_bytes ∷ text " bytes" ∷ []))
      ∷ []
    else []

-- One round of the loop over the patterns, with the set of the names that it has met.
unfoldable pub check_pattern : ℕ → ℕ → List String → LabelPattern → List Diagnostic
unfolding check_regex
check_pattern rule index names p =
    (if is_blank p.name
      then error "labels.empty_pattern_name"
          (pattern_location rule index ++ (text ".name must not be empty" ∷ []))
        ∷ []
      else [])
    ++ ((if contains p.name names
          then error "labels.duplicate_pattern_name"
              (text "duplicate pattern name " ∷ debug p.name ∷ text " in " ∷ rule_location rule)
            ∷ []
          else [])
        ++ check_regex (pattern_location rule index) p.regex)

unfoldable pub check_patterns : ℕ → ℕ → List String → List LabelPattern → List Diagnostic
unfolding check_pattern
check_patterns rule index names [] = []
check_patterns rule index names (p ∷ ps) =
    check_pattern rule index names p ++ check_patterns rule (suc index) (p.name ∷ names) ps

-- `patterns_valid`, when the loop has ended.
unfoldable pub patterns_valid : List LabelPattern → Bool
unfolding check_regex
patterns_valid patterns =
    not (is_empty patterns)
    && (leb (length patterns) max_patterns_per_rule
        && not (any (λ p. not (is_empty (check_regex [] p.regex))) patterns))

-- The checks of a rule whose target is valid, before its patterns.
unfoldable pub check_rule : ℕ → List LabelTarget → LabelTarget → RawLabelRule → List Diagnostic
unfolding duplicate_destination rule_location same_target
check_rule index destinations target raw =
    (if is_blank raw.field
      then error "labels.empty_field"
          (rule_location index ++ (text ".field must not be empty" ∷ []))
        ∷ []
      else [])
    ++ ((if raw.field == target.attribute
          then error "labels.input_is_output"
              (rule_location index ++ (text ".field and target.attribute must be different" ∷ []))
            ∷ []
          else [])
        ++ ((if any (same_target target) destinations
              then duplicate_destination target ∷ []
              else [])
            ++ ((if is_empty raw.patterns
                  then error "labels.empty_patterns"
                      (rule_location index ++ (text ".patterns must not be empty" ∷ []))
                    ∷ []
                  else [])
                ++ (if ltb max_patterns_per_rule (length raw.patterns)
                    then error "labels.too_many_patterns" (
                        rule_location index
                        ++ (text ".patterns contains more than "
                            ∷ number max_patterns_per_rule
                            ∷ text " entries"
                            ∷ []))
                      ∷ []
                    else []))))

module _ (E : Engine) where
  -- What the loop has gathered.
  pub record Parsed : Type 0 where
    pub destinations : List LabelTarget
    pub diagnostics : List Diagnostic
    pub rules : List (LabelRule E)

  unfoldable pub add_runtime : ℕ → RawLabelRule → Result String (Runtime E) → Parsed → Parsed
  add_runtime index raw (ok runtime) s = record s {
    rules =
        s.rules ++ (record { field = raw.field; patterns = raw.patterns; runtime = runtime } ∷ []);
  }
  add_runtime index raw (err e) s = record s {
    diagnostics =
        s.diagnostics
        ++ (error "labels.invalid_configuration" (rule_location index ++ (text ": " ∷ text e ∷ []))
            ∷ []);
  }

  unfoldable pub add_compiled :
      ℕ → LabelTarget → RawLabelRule → Result String (CompiledPatterns E) → Parsed → Parsed
  unfolding add_runtime runtime_labeler
  add_compiled index target raw (ok compiled) s =
      add_runtime index raw (runtime_labeler E target raw.field raw.patterns compiled) s
  add_compiled index target raw (err e) s = record s {
    diagnostics =
        s.diagnostics
        ++ (error "labels.invalid_regex"
              (rule_location index ++ (text ".patterns cannot be compiled safely: " ∷ text e ∷ []))
            ∷ []);
  }

  -- A rule whose target Core accepts.
  unfoldable pub add_rule : ℕ → LabelTarget → RawLabelRule → Parsed → Parsed
  unfolding check_rule check_patterns patterns_valid add_compiled compile_patterns
  add_rule index target raw s =
      let s' : Parsed = record s {
        destinations = target ∷ s.destinations;
        diagnostics =
            s.diagnostics
            ++ (check_rule index s.destinations target raw
                ++ check_patterns index 0 [] raw.patterns);
      } in
      if patterns_valid raw.patterns
      then add_compiled index target raw (compile_patterns E raw.patterns) s'
      else s'

  -- One round of the loop: a rule whose target is refused is passed over.
  unfoldable pub add_target : ℕ → RawLabelRule → Result String LabelTarget → Parsed → Parsed
  unfolding add_rule
  add_target index raw (ok target) s = add_rule index target raw s
  add_target index raw (err e) s = record s {
    diagnostics =
        s.diagnostics
        ++ (error "labels.invalid_target" (rule_location index ++ (text ".target: " ∷ text e ∷ []))
            ∷ []);
  }

  unfoldable pub parse_rules : ℕ → List RawLabelRule → Parsed → Parsed
  unfolding add_target
  parse_rules index [] s = s
  parse_rules index (raw ∷ rest) s =
      parse_rules (suc index) rest
        (add_target index raw (E.new_target raw.target.resource_type raw.target.attribute) s)

  -- `if diagnostics.is_empty() { Ok(rules) } else { Err(Validation(diagnostics)) }`
  unfoldable pub finish :
      List Diagnostic → List (LabelRule E) → Result BundleError (List (LabelRule E))
  finish [] rules = ok rules
  finish (d ∷ ds) rules = err (validation (d ∷ ds))

  -- `LabelSet::from_raw`; a `LabelSet` is its list of rules.
  unfoldable pub from_raw : List RawLabelRule → Result BundleError (List (LabelRule E))
  unfolding parse_rules finish validate_limits
  from_raw raw = do
    validate_limits "label document" (map (λ r. r.patterns) raw)
    let s = parse_rules 0 raw (record { destinations = []; diagnostics = []; rules = [] })
    finish s.diagnostics s.rules
