-- ===== src/Labels/Limits.antt =====
-- `validate_document_limits` and `validate_combined_limits`: the two differ in their messages and
-- in the type of the rules, of which both read the patterns only.
use Prim.Native.String.{len}
use treetop_bundle.Base.{
  ℕ, ◌+◌, ◌-◌, ◌^◌, ◌≤◌, ◌<◌, String, ◌≡◌, ◌↔◌, Option, none, some, List, [], ◌∷◌, ◌++◌, arith,
  length, ltb, leb, map, if◌then◌else◌,
}
use treetop_bundle.Diagnostic.{text, number, error}
use treetop_bundle.Error.{BundleError, validation, Result, ok, ◌>>◌, refuse_if}
use treetop_bundle.Labels.Rules.{
  LabelPattern, max_label_rules, max_total_patterns, max_total_regex_bytes,
}

abbrev pub usize_max : ℕ
usize_max = 2 ^ 64 - 1

-- `total.checked_add(n)`
unfoldable pub checked_add : ℕ → ℕ → Option ℕ
checked_add total n = if leb (total + n) usize_max then some (total + n) else none

abbrev after_none : Option ℕ → (ℕ → Option ℕ) → Option ℕ
after_none none f = none
after_none (some n) f = f n

-- `try_fold(0, checked_add)`
unfoldable pub try_sum : ℕ → List ℕ → Option ℕ
unfolding checked_add
try_sum total [] = some total
try_sum total (n ∷ ns) = after_none (checked_add total n) (λ t. try_sum t ns)

-- `.unwrap_or(usize::MAX)`
unfoldable pub saturated : List ℕ → ℕ
unfolding try_sum
saturated ns = elim (try_sum 0 ns) [ none ↦ usize_max | some n ↦ n ]

-- `rules.iter().flat_map(|rule| &rule.patterns)`, measured in bytes.
unfoldable pub regex_sizes : List (List LabelPattern) → List ℕ
regex_sizes [] = []
regex_sizes (ps ∷ rules) = map (λ p. len p.regex) ps ++ regex_sizes rules

-- The checks on the patterns of all rules; `document` is how the messages call the document.
unfoldable pub validate_limits : String → List (List LabelPattern) → Result BundleError (Unit {0})
unfolding saturated regex_sizes
validate_limits document rules = do
  refuse_if (ltb max_label_rules (length rules)) (
      validation (
        error "labels.too_many_rules" (
          text document ∷ text " contains more than " ∷ number max_label_rules ∷ text " rules" ∷ [])
        ∷ []))
  refuse_if (ltb max_total_patterns (saturated (map length rules))) (
      validation (
        error "labels.too_many_patterns" (
          text document
          ∷ text " contains more than "
          ∷ number max_total_patterns
          ∷ text " patterns"
          ∷ [])
        ∷ []))
  refuse_if (ltb max_total_regex_bytes (saturated (regex_sizes rules))) (
      validation (
        error "labels.regex_budget_exceeded" (
          text document
          ∷ text " regex sources exceed "
          ∷ number max_total_regex_bytes
          ∷ text " total bytes"
          ∷ [])
        ∷ []))

pub sum : List ℕ → ℕ
sum [] = 0
sum (n ∷ ns) = n + sum ns

-- The sum, as far as it fits a machine word.
try_sum-eq :
    (total : ℕ) (ns : List ℕ)
    → total ≤ usize_max
    → try_sum total ns ≡ (if leb (total + sum ns) usize_max then some (total + sum ns) else none)
unfolding try_sum sum
try_sum-eq total [] h = ground arith
try_sum-eq total (n ∷ ns) h = ground (arith, try_sum-eq (total + n) ns)

saturated-le :
    (bound : ℕ) (ns : List ℕ) → bound < usize_max → ltb bound (saturated ns) ≡ ltb bound (sum ns)
unfolding saturated
saturated-le bound ns h = ground (arith, try_sum-eq 0 ns)

-- The limits are the true ones, also where the machine sum overflows: a document passes exactly
-- when its rules, its patterns and the bytes of its regular expressions are within the limits.
pub validate_limits_iff :
    (document : String) (rules : List (List LabelPattern))
    → (validate_limits document rules ≡ ok tt) ↔ (
        (length rules ≤ max_label_rules)
        × (sum (map length rules) ≤ max_total_patterns)
        × (sum (regex_sizes rules) ≤ max_total_regex_bytes))
unfolding validate_limits
validate_limits_iff document rules = ground (
  arith,
  saturated-le max_total_patterns (map length rules),
  saturated-le max_total_regex_bytes (regex_sizes rules),
)
