-- ===== src/Labels/Document.antt =====
-- What `LabelSet::from_raw` returns: one rule for each raw rule, every check passed, and no
-- destination twice.
use treetop_bundle.Labels.Compiled.{IsCompiled-of_labeler, IsCompiled, IsCompiled-target}
use treetop_bundle.Base.{
  ℕ, suc, String, ◌≡◌, ◌≢◌, refl, sym, ap, ◌∙◌, subst, false, List, [], ◌∷◌, ◌++◌, arith, any, All,
  append-eq-nil, map, inl, inr, Bool-cases,
}
use mathlib.Core.List.{append_assoc, append-nil}
use treetop_bundle.Error.{Result, ok, err, >>=-eq-ok}
use treetop_bundle.Labels.Rules.{
  Engine, LabelTarget, LabelRule, RawLabelRule, Runtime, CompiledPatterns, rule_target,
  compile_patterns,
}
use treetop_bundle.Labels.Limits.{validate_limits}
use treetop_bundle.Labels.Parse.{
  check_rule, check_patterns, patterns_valid, Parsed, add_runtime, add_compiled, add_rule,
  add_target, parse_rules, from_raw, same_target,
}
use treetop_bundle.Labels.Accepted.{IsAcceptedRule, checked_rule, patterns_valid_of_checked}
use treetop_bundle.Labels.Targets.{
  Avoids-cons, Avoids, DistinctTargets, not_any-same_target, finish-eq-ok,
}

module _ (E : Engine) where
  -- An accepted rule and the raw rule that it was made of.
  pub record Accepts (raw : RawLabelRule) (rule : LabelRule E) : Type 0 where
    pub target :
        E.new_target raw.target.resource_type raw.target.attribute ≡ ok (rule_target E rule)
    pub field : rule.field ≡ raw.field
    pub patterns : rule.patterns ≡ raw.patterns
    pub checked : IsAcceptedRule raw (rule_target E rule)
    pub compiled : IsCompiled E (rule_target E rule) raw.field raw.patterns rule.runtime

  -- What a round that pushes nothing leaves behind.
  pub record Extends (raw : RawLabelRule) (s t : Parsed E) : Type 0 where
    pub rule : LabelRule E
    pub accepts : Accepts raw rule
    pub fresh : All (λ u. rule_target E rule ≢ u) s.destinations
    pub clean : s.diagnostics ≡ []
    pub destinations : t.destinations ≡ rule_target E rule ∷ s.destinations
    pub rules : t.rules ≡ s.rules ++ (rule ∷ [])

  add_runtime-eq-nil :
      (index : ℕ) (raw : RawLabelRule) (r : Result String (Runtime E)) (s : Parsed E)
      → (add_runtime E index raw r s).diagnostics ≡ []
      → (runtime : Runtime E) × (r ≡ ok runtime)
        × (s.diagnostics ≡ [])
        × (add_runtime E index raw r s ≡ record s {
          rules =
              s.rules
              ++ (record { field = raw.field; patterns = raw.patterns; runtime = runtime } ∷ []);
        })
  unfolding add_runtime
  add_runtime-eq-nil index raw (ok runtime) s h = (runtime, refl, h, refl)
  add_runtime-eq-nil index raw (err e) s h = let (_, bad) = append-eq-nil s.diagnostics _ h in cc

  add_compiled-eq-nil :
      (index : ℕ) (target : LabelTarget) (raw : RawLabelRule)
      (c : Result String (CompiledPatterns E)) (s : Parsed E)
      → compile_patterns E raw.patterns ≡ c
      → (add_compiled E index target raw c s).diagnostics ≡ []
      → (runtime : Runtime E) × (IsCompiled E target raw.field raw.patterns runtime)
        × (s.diagnostics ≡ [])
        × (add_compiled E index target raw c s ≡ record s {
          rules =
              s.rules
              ++ (record { field = raw.field; patterns = raw.patterns; runtime = runtime } ∷ []);
        })
  unfolding add_compiled
  add_compiled-eq-nil index target raw (ok compiled) s built h =
      let (runtime, made, clean, e) = add_runtime-eq-nil index raw _ s h in
      (
        runtime,
        IsCompiled-of_labeler E target raw.field raw.patterns compiled runtime built made,
        clean,
        e,
      )
  add_compiled-eq-nil index target raw (err e) s built h =
      let (_, bad) = append-eq-nil s.diagnostics _ h in cc

  add_rule-Extends :
      (index : ℕ) (target : LabelTarget) (raw : RawLabelRule) (s : Parsed E)
      → E.new_target raw.target.resource_type raw.target.attribute ≡ ok target
      → (add_rule E index target raw s).diagnostics ≡ []
      → Extends raw s (add_rule E index target raw s)
  unfolding add_rule
  add_rule-Extends index target raw s made h = elim (Bool-cases (patterns_valid raw.patterns)) [
    | inl valid ↦ rw valid (compiled (rw valid at h))
    | inr invalid ↦
        let bad : s.diagnostics
              ++ (check_rule index s.destinations target raw
                  ++ check_patterns index 0 [] raw.patterns)
            ≡ [] =
          rw invalid at h in
        absurd (not_invalid bad invalid)
  ]
    where
      s' : Parsed E
      s' = record s {
        destinations = target ∷ s.destinations;
        diagnostics =
            s.diagnostics
            ++ (check_rule index s.destinations target raw
                ++ check_patterns index 0 [] raw.patterns);
      }

      checks :
          s.diagnostics
              ++ (check_rule index s.destinations target raw
                  ++ check_patterns index 0 [] raw.patterns)
            ≡ []
          → (s.diagnostics ≡ [])
            × IsAcceptedRule raw target
            × (any (same_target target) s.destinations ≡ false)
      checks bad =
          let (clean, found) = append-eq-nil s.diagnostics _ bad in
          let (a, b) = append-eq-nil (check_rule index s.destinations target raw) _ found in
          let (accepted, fresh) = checked_rule index s.destinations target raw a b in
          (clean, accepted, fresh)

      not_invalid :
          s.diagnostics
              ++ (check_rule index s.destinations target raw
                  ++ check_patterns index 0 [] raw.patterns)
            ≡ []
          → patterns_valid raw.patterns ≡ false
          → ⊥
      not_invalid bad invalid =
          let (_, accepted, _) = checks bad in
          ground (
            arith,
            patterns_valid_of_checked raw.patterns accepted.some_pattern accepted.few_patterns
                accepted.patterns,
          )

      compiled :
          (add_compiled E index target raw (compile_patterns E raw.patterns) s').diagnostics ≡ []
          → Extends raw s (add_compiled E index target raw (compile_patterns E raw.patterns) s')
      compiled found =
          let (runtime, made_of, bad, e) =
            add_compiled-eq-nil index target raw (compile_patterns E raw.patterns) s' refl found in
          let same = IsCompiled-target E target raw.field raw.patterns runtime made_of in
          let (clean, accepted, fresh) = checks bad in
          record {
            rule = record { field = raw.field; patterns = raw.patterns; runtime = runtime };
            accepts = record {
              target = made ∙ ap ok (sym same);
              field = refl;
              patterns = refl;
              checked = subst (IsAcceptedRule raw) (sym same) accepted;
              compiled =
                  subst (λ t. IsCompiled E t raw.field raw.patterns runtime) (sym same) made_of;
            };
            fresh =
                subst (λ t. All (λ u. t ≢ u) s.destinations) (sym same)
                  (not_any-same_target target s.destinations fresh);
            clean = clean;
            destinations =
                ap (λ (t : Parsed E). t.destinations) e ∙ ap (λ t. t ∷ s.destinations) (sym same);
            rules = ap (λ (t : Parsed E). t.rules) e;
          }

  add_target-Extends :
      (index : ℕ) (raw : RawLabelRule) (r : Result String LabelTarget) (s : Parsed E)
      → E.new_target raw.target.resource_type raw.target.attribute ≡ r
      → (add_target E index raw r s).diagnostics ≡ []
      → Extends raw s (add_target E index raw r s)
  unfolding add_target
  add_target-Extends index raw (ok target) s made h = add_rule-Extends index target raw s made h
  add_target-Extends index raw (err e) s made h =
      absurd (let (_, bad) = append-eq-nil s.diagnostics _ h in cc)

  -- The rules are made of the raw rules one by one, in order.
  abbrev pub AllAccept : List RawLabelRule → List (LabelRule E) → Type 0
  AllAccept [] [] = Unit
  AllAccept (raw ∷ raws) (rule ∷ rules) = Accepts raw rule × AllAccept raws rules
  AllAccept [] (rule ∷ rules) = ⊥
  AllAccept (raw ∷ raws) [] = ⊥

  pub record Parses (raws : List RawLabelRule) (s t : Parsed E) : Type 0 where
    pub added : List (LabelRule E)
    pub rules : t.rules ≡ s.rules ++ added
    pub accepted : AllAccept raws added
    pub clean : s.diagnostics ≡ []
    pub distinct : DistinctTargets (map (rule_target E) added)
    pub avoids : Avoids s.destinations (map (rule_target E) added)

  parse_rules-Parses :
      (index : ℕ) (raws : List RawLabelRule) (s : Parsed E)
      → (parse_rules E index raws s).diagnostics ≡ []
      → Parses raws s (parse_rules E index raws s)
  unfolding parse_rules
  parse_rules-Parses index [] s h = record {
    added = [];
    rules = sym (append-nil s.rules);
    accepted = tt;
    clean = h;
    distinct = tt;
    avoids = tt;
  }
  parse_rules-Parses index (raw ∷ raws) s h =
      let t : Parsed E =
        add_target E index raw (E.new_target raw.target.resource_type raw.target.attribute) s in
      let later = parse_rules-Parses (suc index) raws t h in
      let x =
        add_target-Extends index raw (E.new_target raw.target.resource_type raw.target.attribute) s
          refl later.clean in
      let met : Avoids (rule_target E x.rule ∷ s.destinations) (map (rule_target E) later.added) =
        subst (λ d. Avoids d (map (rule_target E) later.added)) x.destinations later.avoids in
      let (apart, older) = Avoids-cons (rule_target E x.rule) s.destinations _ met in
      record {
        added = x.rule ∷ later.added;
        rules =
            later.rules
            ∙ ap (λ r. r ++ later.added) x.rules
            ∙ append_assoc s.rules (x.rule ∷ []) later.added;
        accepted = (x.accepts, later.accepted);
        clean = x.clean;
        distinct = (apart, later.distinct);
        avoids = (x.fresh, older);
      }

  -- An accepted label document has one rule for each raw rule, in order, with its target, field
  -- and patterns; each passed every check on fields, names and regular expressions, and its labeler
  -- has that target and field and was compiled from those patterns, one by one where they are few
  -- and as a set where they are more; and no two rules have the same destination.
  pub from_raw_accepted :
      (raws : List RawLabelRule) (rules : List (LabelRule E))
      → from_raw E raws ≡ ok rules
      → AllAccept raws rules × DistinctTargets (map (rule_target E) rules)
  unfolding from_raw
  from_raw_accepted raws rules h =
      let start : Parsed E = record { destinations = []; diagnostics = []; rules = [] } in
      let (_, _, h1) =
        >>=-eq-ok (validate_limits "label document" (map (λ r. r.patterns) raws)) _ h in
      let (clean, same) = finish-eq-ok E _ _ _ h1 in
      let parsed = parse_rules-Parses 0 raws start clean in
      let e : parsed.added ≡ rules = sym parsed.rules ∙ same in
      (
        subst (AllAccept raws) e parsed.accepted,
        subst (λ r. DistinctTargets (map (rule_target E) r)) e parsed.distinct,
      )
