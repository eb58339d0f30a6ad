-- ===== src/Labels/Rules.antt =====
-- The data of label documents, and what the program takes from the regular expression library and
-- from Treetop core.
use treetop_bundle.Base.{
  false, ◌==◌, ◌&&◌, true, Bool, ℕ, String, List, [], ◌∷◌, map, length, leb, zip_with,
  if◌then◌else◌,
}
use treetop_bundle.Error.{Result, ok, ◌>>=◌}

abbrev pub max_label_rules : ℕ
max_label_rules = 256

abbrev pub max_patterns_per_rule : ℕ
max_patterns_per_rule = 1024

abbrev pub max_total_patterns : ℕ
max_total_patterns = 4096

abbrev pub max_regex_bytes : ℕ
max_regex_bytes = 16384

abbrev pub max_total_regex_bytes : ℕ
max_total_regex_bytes = 1048576

abbrev pub regex_set_size_limit : ℕ
regex_set_size_limit = 2097152

abbrev pub regex_set_dfa_size_limit : ℕ
regex_set_dfa_size_limit = 1048576

abbrev pub individual_regex_threshold : ℕ
individual_regex_threshold = 4

abbrev pub individual_regex_size_limit : ℕ
individual_regex_size_limit = 524288

abbrev pub individual_regex_dfa_size_limit : ℕ
individual_regex_dfa_size_limit = 262144

-- `RawLabelPattern` and `LabelPattern`: a pattern keeps its texts when it is accepted.
pub record LabelPattern : Type 0 where
  pub name : String
  pub regex : String

pub record RawLabelTarget : Type 0 where
  pub resource_type : String
  pub attribute : String

pub record RawLabelRule : Type 0 where
  pub target : RawLabelTarget
  pub field : String
  pub patterns : List LabelPattern

-- What the program reads of Core's `LabelTarget`: its two texts, which are also its identity.
pub record LabelTarget : Type 0 where
  pub resource_type : String
  pub attribute : String

-- `LabelPattern::eq`
unfoldable pub same_pattern : LabelPattern → LabelPattern → Bool
same_pattern p q = p.name == q.name && p.regex == q.regex

-- `Vec::eq` of patterns
unfoldable pub same_patterns : List LabelPattern → List LabelPattern → Bool
unfolding same_pattern
same_patterns [] [] = true
same_patterns [] (q ∷ qs) = false
same_patterns (p ∷ ps) [] = false
same_patterns (p ∷ ps) (q ∷ qs) = same_pattern p q && same_patterns ps qs

unfoldable pub same_target : LabelTarget → LabelTarget → Bool
same_target t u = t.resource_type == u.resource_type && t.attribute == u.attribute

-- The regular expression library and Core's labelers, with the texts of their errors.
pub record Engine : Type 1 where
  pub Regex : Type 0
  pub RegexSet : Type 0
  -- `RegexBuilder::new(source).size_limit(..).dfa_size_limit(..).build()`
  pub build_regex : String → ℕ → ℕ → Result String Regex
  pub build_regex_set : List String → ℕ → ℕ → Result String RegexSet
  -- `RegexSet::matches(value).iter()`: the indices of the patterns that match.
  pub matches : RegexSet → String → List ℕ
  -- `LabelTarget::new`, `RegexLabeler::new`
  pub new_target : String → String → Result String LabelTarget
  pub new_regex_labeler : LabelTarget → String → List (String × Regex) → Result String (Unit {0})

module _ (E : Engine) where
  pub data CompiledPatterns : Type 0 where
    individual : List E.Regex → CompiledPatterns
    set : E.RegexSet → CompiledPatterns

  -- `Arc<dyn Labeler>`: Core's `RegexLabeler`, or the `RegexSetLabeler` of this program.
  pub data Runtime : Type 0 where
    regex_labeler : LabelTarget → String → List (String × E.Regex) → Runtime
    regex_set_labeler : LabelTarget → String → List String → E.RegexSet → Runtime

  pub record LabelRule : Type 0 where
    pub field : String
    pub patterns : List LabelPattern
    pub runtime : Runtime

  -- `Labeler::target`
  abbrev pub runtime_target : Runtime → LabelTarget
  runtime_target (regex_labeler t f ps) = t
  runtime_target (regex_set_labeler t f names c) = t

  -- `LabelRule::target`
  abbrev pub rule_target : LabelRule → LabelTarget
  rule_target r = runtime_target r.runtime

  -- `LabelRule::eq`
  unfoldable pub same_rule : LabelRule → LabelRule → Bool
  unfolding same_target same_patterns
  same_rule r s =
      same_target (rule_target r) (rule_target s)
      && (r.field == s.field && same_patterns r.patterns s.patterns)

  unfoldable pub build_each : List LabelPattern → Result String (List E.Regex)
  build_each [] = ok []
  build_each (p ∷ ps) = do
    regex ← E.build_regex p.regex individual_regex_size_limit individual_regex_dfa_size_limit
    rest ← build_each ps
    ok (regex ∷ rest)

  -- `compile_patterns`
  unfoldable pub compile_patterns : List LabelPattern → Result String CompiledPatterns
  unfolding build_each
  compile_patterns patterns =
      if leb (length patterns) individual_regex_threshold
      then (do compiled ← build_each patterns; ok (individual compiled))
      else (do
        compiled ←
            E.build_regex_set (map (λ p. p.regex) patterns) regex_set_size_limit
              regex_set_dfa_size_limit
        ok (set compiled))

  -- `runtime_labeler`
  unfoldable pub runtime_labeler :
      LabelTarget → String → List LabelPattern → CompiledPatterns → Result String Runtime
  runtime_labeler target field patterns (individual compiled) =
      let named = zip_with (λ p regex. (p.name, regex)) patterns compiled in
      (do _ ← E.new_regex_labeler target field named; ok (regex_labeler target field named))
  runtime_labeler target field patterns (set compiled) =
      ok (regex_set_labeler target field (map (λ p. p.name) patterns) compiled)
