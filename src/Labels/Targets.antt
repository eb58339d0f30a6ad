-- ===== src/Labels/Targets.antt =====
-- Distinct destinations: what `combine` accepts.
use treetop_bundle.Base.{
  length-map, subst, ◌≡◌, ◌≢◌, ◌↔◌, refl, sym, ap, true, false, List, [], ◌∷◌, arith, any, All,
  AllPairs, All-of_In, any_false→In, length, ◌≤◌, append-eq-nil, when-eq-nil, map, eq_iff,
}
use treetop_bundle.Diagnostic.{Diagnostic}
use treetop_bundle.Error.{ok-injective, >>=-eq-ok, >>=-eq-ok, ok}
use treetop_bundle.Labels.Rules.{
  Engine, LabelPattern, LabelTarget, LabelRule, rule_target, max_label_rules, max_total_patterns,
  max_total_regex_bytes,
}
use treetop_bundle.Labels.Limits.{validate_limits, validate_limits_iff, sum, regex_sizes}
use treetop_bundle.Labels.Parse.{same_target, finish}
use treetop_bundle.Labels.Combine.{check_destinations, combine, concat}

pub same_target_iff : (t u : LabelTarget) → (same_target t u ≡ true) ↔ (t ≡ u)
unfolding same_target
same_target_iff t u = (
  λ h. ground (arith, eq_iff t.resource_type u.resource_type, eq_iff t.attribute u.attribute),
  λ e. ground (
    arith,
    ap (λ (x : LabelTarget). x.resource_type) e,
    ap (λ (x : LabelTarget). x.attribute) e,
    eq_iff t.resource_type u.resource_type,
    eq_iff t.attribute u.attribute,
  ),
)

abbrev pub DistinctTargets : List LabelTarget → Type 0
DistinctTargets = AllPairs (λ t u. t ≢ u)

pub not_any-same_target :
    (t : LabelTarget) (ts : List LabelTarget) → any (same_target t) ts ≡ false → All (λ u. t ≢ u) ts
not_any-same_target t ts h =
    All-of_In _ ts
      λ u m e. ground (arith, any_false→In (same_target t) ts h u m, (same_target_iff t u).1 e)

any-same_target_of_All :
    (t : LabelTarget) (ts : List LabelTarget) → All (λ u. t ≢ u) ts → any (same_target t) ts ≡ false
any-same_target_of_All t [] h = refl
any-same_target_of_All t (u ∷ ts) h =
    ground (arith, any-same_target_of_All t ts h.1, same_target_iff t u, h.0)

-- Each target differs from the targets met before and from those that follow.
abbrev Fresh : List LabelTarget → List LabelTarget → Type 0
Fresh seen [] = Unit
Fresh seen (t ∷ ts) = All (λ u. t ≢ u) seen × Fresh (t ∷ seen) ts

check_destinations-eq-nil :
    (seen ts : List LabelTarget) → (check_destinations seen ts ≡ []) ↔ Fresh seen ts
unfolding check_destinations
check_destinations-eq-nil seen [] = (λ h. tt, λ h. refl)
check_destinations-eq-nil seen (t ∷ ts) = (
  λ h.
      let (new, rest) = append-eq-nil _ _ h in
      (
        not_any-same_target t seen (when-eq-nil _ _ new),
        (check_destinations-eq-nil (t ∷ seen) ts).0 rest,
      ),
  λ h. rw (any-same_target_of_All t seen h.0) ((check_destinations-eq-nil (t ∷ seen) ts).1 h.1),
)

-- Those met before do not return.
abbrev pub Avoids : List LabelTarget → List LabelTarget → Type 0
Avoids seen ts = All (λ t. All (λ u. t ≢ u) seen) ts

pub Avoids-cons :
    (s : LabelTarget) (seen ts : List LabelTarget)
    → Avoids (s ∷ seen) ts
    → All (λ u. s ≢ u) ts × Avoids seen ts
Avoids-cons s seen [] h = (tt, tt)
Avoids-cons s seen (t ∷ ts) h =
    let (a, b) = Avoids-cons s seen ts h.1 in (((λ e. h.0.0 (sym e)), a), (h.0.1, b))

Avoids-of_cons :
    (s : LabelTarget) (seen ts : List LabelTarget)
    → All (λ u. s ≢ u) ts
    → Avoids seen ts
    → Avoids (s ∷ seen) ts
Avoids-of_cons s seen [] a b = tt
Avoids-of_cons s seen (t ∷ ts) a b = (((λ e. a.0 (sym e)), b.0), Avoids-of_cons s seen ts a.1 b.1)

Fresh→Distinct : (seen ts : List LabelTarget) → Fresh seen ts → DistinctTargets ts × Avoids seen ts
Fresh→Distinct seen [] h = (tt, tt)
Fresh→Distinct seen (t ∷ ts) h =
    let (distinct, avoids) = Fresh→Distinct (t ∷ seen) ts h.1 in
    let (later, rest) = Avoids-cons t seen ts avoids in ((later, distinct), (h.0, rest))

Distinct→Fresh : (seen ts : List LabelTarget) → DistinctTargets ts → Avoids seen ts → Fresh seen ts
Distinct→Fresh seen [] d a = tt
Distinct→Fresh seen (t ∷ ts) d a =
    (a.0, Distinct→Fresh (t ∷ seen) ts d.1 (Avoids-of_cons t seen ts d.0 a.1))

Avoids-nil : (ts : List LabelTarget) → Avoids [] ts
Avoids-nil [] = tt
Avoids-nil (t ∷ ts) = (tt, Avoids-nil ts)

check_destinations_iff :
    (ts : List LabelTarget) → (check_destinations [] ts ≡ []) ↔ DistinctTargets ts
check_destinations_iff ts = (
  λ h. (Fresh→Distinct [] ts ((check_destinations-eq-nil [] ts).0 h)).0,
  λ d. (check_destinations-eq-nil [] ts).1 (Distinct→Fresh [] ts d (Avoids-nil ts)),
)

module _ (E : Engine) where
  -- The rules as the limits read them.
  abbrev pub patterns_of : List (LabelRule E) → List (List LabelPattern)
  patterns_of = map (λ r. r.patterns)

  pub finish-eq-ok :
      (ds : List Diagnostic) (rules r : List (LabelRule E))
      → finish E ds rules ≡ ok r
      → (ds ≡ []) × (rules ≡ r)
  unfolding finish
  finish-eq-ok [] rules r h = (refl, ok-injective h)
  finish-eq-ok (d ∷ ds) rules r h = cc

  -- `combine` returns the rules of the documents, in order, exactly when all of them together keep
  -- the limits of one document and no two rules have the same destination.
  pub combine_iff :
      (sets : List (List (LabelRule E)))
      → (combine E sets ≡ ok (concat sets)) ↔ (
          (length (concat sets) ≤ max_label_rules)
          × (sum (map length (patterns_of (concat sets))) ≤ max_total_patterns)
          × (sum (regex_sizes (patterns_of (concat sets))) ≤ max_total_regex_bytes)
          × DistinctTargets (map (rule_target E) (concat sets)))
  unfolding combine
  combine_iff sets = (
    λ h.
        let (_, limits, rest) =
          >>=-eq-ok (validate_limits "combined label document" (patterns_of (concat sets))) _ h in
        let (rules, patterns, bytes) =
          (validate_limits_iff "combined label document" (patterns_of (concat sets))).0 limits in
        let (none_found, _) =
          finish-eq-ok (check_destinations [] (map (rule_target E) (concat sets))) _ _ rest in
        (
          subst (λ n. n ≤ max_label_rules) (length-map _ (concat sets)) rules,
          patterns,
          bytes,
          (check_destinations_iff _).0 none_found,
        ),
    λ h.
        rw
          (
            (validate_limits_iff "combined label document" (patterns_of (concat sets))).1
                (subst (λ n. n ≤ max_label_rules) (sym (length-map _ (concat sets))) h.0, h.1, h.2),
            (check_destinations_iff (map (rule_target E) (concat sets))).1 h.3,
          )
          (unfold finish in refl),
  )
