-- ===== src/Labels/Accepted.antt =====
-- What an accepted label document satisfies.
use Prim.Native.String.{len}
use treetop_bundle.Base.{
  ◌==◌, ℕ, suc, ◌≤◌, String, ◌≡◌, ◌≢◌, refl, true, false, not, List, [], ◌∷◌, arith, any, All,
  AllPairs, length, append-eq-nil, when-eq-nil, eq_iff, is_blank, is_empty, is_empty_text, contains,
  ltb,
}
use treetop_bundle.Diagnostic.{Message}
use treetop_bundle.Labels.Rules.{
  LabelPattern, LabelTarget, RawLabelRule, max_patterns_per_rule, max_regex_bytes,
}
use treetop_bundle.Labels.Parse.{
  check_regex, check_pattern, check_patterns, patterns_valid, check_rule, same_target,
}

-- A regular expression source within the limits.
pub record IsRegexSource (regex : String) : Type 0 where
  pub not_empty : is_empty_text regex ≡ false
  pub short : len regex ≤ max_regex_bytes

-- A pattern of an accepted rule.
pub record IsPattern (p : LabelPattern) : Type 0 where
  pub named : is_blank p.name ≡ false
  pub regex : IsRegexSource p.regex

check_regex-eq-nil :
    (location : Message) (regex : String) → check_regex location regex ≡ [] → IsRegexSource regex
unfolding check_regex
check_regex-eq-nil location regex h = ground arith

check_regex_of_source :
    (location : Message) (regex : String) → IsRegexSource regex → check_regex location regex ≡ []
unfolding check_regex
check_regex_of_source location regex s = ground arith

check_patterns-eq-nil :
    (rule index : ℕ) (names : List String) (ps : List LabelPattern)
    → check_patterns rule index names ps ≡ []
    → All IsPattern ps
      × AllPairs (λ p q. p.name ≢ q.name) ps
      × All (λ p. contains p.name names ≡ false) ps
unfolding check_patterns
check_patterns-eq-nil rule index names [] h = (tt, tt, tt)
check_patterns-eq-nil rule index names (p ∷ ps) h =
    let (here, rest) = append-eq-nil (check_pattern rule index names p) _ h in
    let (blank, h1) = append-eq-nil _ _ here in
    let (new, regex) = append-eq-nil _ _ h1 in
    let (patterns, distinct, fresh) =
      check_patterns-eq-nil rule (suc index) (p.name ∷ names) ps rest in
    let (apart, older) = fresh_cons p ps fresh in
    (
      (
        record { named = when-eq-nil _ _ blank; regex = check_regex-eq-nil _ p.regex regex },
        patterns,
      ),
      (apart, distinct),
      (when-eq-nil _ _ new, older),
    )
  where
    fresh_cons :
        (p : LabelPattern) (qs : List LabelPattern)
        → All (λ q. contains q.name (p.name ∷ names) ≡ false) qs
        → All (λ q. p.name ≢ q.name) qs × All (λ q. contains q.name names ≡ false) qs
    fresh_cons p [] f = (tt, tt)
    fresh_cons p (q ∷ qs) f =
        let (a, b) = fresh_cons p qs f.1 in
        let first : contains q.name (p.name ∷ names) ≡ false = f.0 in
        (((λ e. ground (arith, eq_iff q.name p.name)), a), (ground arith, b))

pub patterns_valid_of_checked :
    (ps : List LabelPattern)
    → is_empty ps ≡ false
    → length ps ≤ max_patterns_per_rule
    → All IsPattern ps
    → patterns_valid ps ≡ true
unfolding patterns_valid
patterns_valid_of_checked ps some short all = ground (arith, none_bad ps all)
  where
    none_bad :
        (qs : List LabelPattern)
        → All IsPattern qs
        → any (λ p. not (is_empty (check_regex [] p.regex))) qs ≡ false
    none_bad [] a = refl
    none_bad (q ∷ qs) a = rw (check_regex_of_source [] q.regex a.0.regex) (none_bad qs a.1)

-- A raw rule that passed every check.
pub record IsAcceptedRule (raw : RawLabelRule) (target : LabelTarget) : Type 0 where
  pub field_named : is_blank raw.field ≡ false
  pub field_is_input : raw.field ≢ target.attribute
  pub some_pattern : is_empty raw.patterns ≡ false
  pub few_patterns : length raw.patterns ≤ max_patterns_per_rule
  pub patterns : All IsPattern raw.patterns
  pub distinct_names : AllPairs (λ p q. p.name ≢ q.name) raw.patterns

pub checked_rule :
    (index : ℕ) (seen : List LabelTarget) (target : LabelTarget) (raw : RawLabelRule)
    → check_rule index seen target raw ≡ []
    → check_patterns index 0 [] raw.patterns ≡ []
    → IsAcceptedRule raw target × (any (same_target target) seen ≡ false)
unfolding check_rule
checked_rule index seen target raw h hp =
    let (field, h1) = append-eq-nil _ _ h in
    let (input, h2) = append-eq-nil _ _ h1 in
    let (fresh, h3) = append-eq-nil _ _ h2 in
    let (some, many) = append-eq-nil _ _ h3 in
    let (patterns, distinct, _) = check_patterns-eq-nil index 0 [] raw.patterns hp in
    let few : ltb max_patterns_per_rule (length raw.patterns) ≡ false = when-eq-nil _ _ many in
    let own : (raw.field == target.attribute) ≡ false = when-eq-nil _ _ input in
    (
      record {
        field_named = when-eq-nil _ _ field;
        field_is_input = λ e. ground (arith, eq_iff raw.field target.attribute);
        some_pattern = when-eq-nil _ _ some;
        few_patterns = ground arith;
        patterns = patterns;
        distinct_names = distinct;
      },
      when-eq-nil _ _ fresh,
    )
