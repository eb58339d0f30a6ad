-- ===== src/Labels/Combine.antt =====
-- `LabelSet::combine`: the rules of several documents, under the limits and the rule on
-- destinations of a single one.
use treetop_bundle.Base.{List, [], ◌∷◌, ◌++◌, map, any, if◌then◌else◌}
use treetop_bundle.Diagnostic.{Diagnostic}
use treetop_bundle.Error.{BundleError, Result, ◌>>◌}
use treetop_bundle.Labels.Rules.{Engine, LabelTarget, LabelRule, rule_target}
use treetop_bundle.Labels.Limits.{validate_limits}
use treetop_bundle.Labels.Parse.{same_target, duplicate_destination, finish}

-- The loop over the targets, with the set of those that it has met.
unfoldable pub check_destinations : List LabelTarget → List LabelTarget → List Diagnostic
unfolding duplicate_destination same_target
check_destinations seen [] = []
check_destinations seen (t ∷ ts) =
    (if any (same_target t) seen then duplicate_destination t ∷ [] else [])
    ++ check_destinations (t ∷ seen) ts

unfoldable pub concat {ℓ} : {A : Type ℓ} → List (List A) → List A
concat [] = []
concat (xs ∷ xss) = xs ++ concat xss

module _ (E : Engine) where
  -- `LabelSet::combine`
  unfoldable pub combine : List (List (LabelRule E)) → Result BundleError (List (LabelRule E))
  unfolding check_destinations finish concat
  combine sets = do
    let rules = concat sets
    validate_limits "combined label document" (map (λ r. r.patterns) rules)
    finish E (check_destinations [] (map (rule_target E) rules)) rules
