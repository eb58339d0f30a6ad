-- ===== src/Labels/Compiled.antt =====
-- What the labeler of a rule is made of: the compiled regular expressions of its patterns.
use treetop_bundle.Error.{ok-injective, >>=-eq-ok, ok}
use treetop_bundle.Labels.Rules.{
  regex_set_dfa_size_limit, regex_set_size_limit, individual_regex_threshold, regex_set_labeler,
  individual_regex_dfa_size_limit, runtime_target, regex_labeler, individual_regex_size_limit,
  Runtime, CompiledPatterns, runtime_labeler, build_each, LabelPattern, LabelTarget,
  compile_patterns, Engine,
}
use treetop_bundle.Base.{
  inr, arith, sym, map, inl, ◌<◌, subst, ◌≤◌, leb, length, Bool-cases, zip_with, String, ◌≡◌, refl,
  [], ◌∷◌, List,
}

module _ (E : Engine) where
  -- The names of the patterns, each with its regular expression, compiled within the limits.
  abbrev pub AreCompiled : List LabelPattern → List (String × E.Regex) → Type 0
  AreCompiled [] [] = Unit {0}
  AreCompiled [] (named ∷ rest) = ⊥
  AreCompiled (p ∷ ps) [] = ⊥
  AreCompiled (p ∷ ps) (named ∷ rest) =
      ((named.0 ≡ p.name)
        × (E.build_regex p.regex individual_regex_size_limit individual_regex_dfa_size_limit
            ≡ ok named.1))
      × AreCompiled ps rest

  -- The labeler of few patterns has each of them compiled, and the labeler of more has the set of
  -- all of them, with their names in order.
  abbrev pub IsCompiled : LabelTarget → String → List LabelPattern → Runtime E → Type 0
  IsCompiled target field ps (regex_labeler t f named) =
      (length ps ≤ individual_regex_threshold)
      × (t ≡ target)
      × (f ≡ field)
      × AreCompiled ps named
      × (E.new_regex_labeler target field named ≡ ok tt)
  IsCompiled target field ps (regex_set_labeler t f names c) =
      (individual_regex_threshold < length ps)
      × (t ≡ target)
      × (f ≡ field)
      × (names ≡ map (λ p. p.name) ps)
      × (E.build_regex_set (map (λ p. p.regex) ps) regex_set_size_limit regex_set_dfa_size_limit
          ≡ ok c)

  build_each-AreCompiled :
      (ps : List LabelPattern) (rs : List E.Regex)
      → build_each E ps ≡ ok rs
      → AreCompiled ps (zip_with (λ p regex. (p.name, regex)) ps rs)
  unfolding build_each
  build_each-AreCompiled [] rs h = tt
  build_each-AreCompiled (p ∷ ps) rs h =
      let (regex, built, h1) =
        >>=-eq-ok
          (E.build_regex p.regex individual_regex_size_limit individual_regex_dfa_size_limit) _ h in
      let (rest, later, h2) = >>=-eq-ok (build_each E ps) _ h1 in
      subst (λ l. AreCompiled (p ∷ ps) (zip_with (λ p regex. (p.name, regex)) (p ∷ ps) l))
        (ok-injective h2) ((refl, built), build_each-AreCompiled ps rest later)

  -- The labeler that `compile_patterns` and then `runtime_labeler` make.
  pub IsCompiled-of_labeler :
      (target : LabelTarget) (field : String) (ps : List LabelPattern) (c : CompiledPatterns E)
      (r : Runtime E)
      → compile_patterns E ps ≡ ok c
      → runtime_labeler E target field ps c ≡ ok r
      → IsCompiled target field ps r
  unfolding compile_patterns runtime_labeler
  IsCompiled-of_labeler target field ps c r h l =
      elim (Bool-cases (leb (length ps) individual_regex_threshold)) [
        | inl few ↦
            let (rs, each, e) = >>=-eq-ok (build_each E ps) _ (rw few at h) in
            let l' =
              subst (λ x. runtime_labeler E target field ps x ≡ ok r) (sym (ok-injective e)) l in
            let (u, made, e') =
              >>=-eq-ok
                (E.new_regex_labeler target field (zip_with (λ p regex. (p.name, regex)) ps rs)) _
                l' in
            subst (IsCompiled target field ps) (ok-injective e')
              (ground (arith, few), refl, refl, build_each-AreCompiled ps rs each, made)
        | inr many ↦
            let (c', built, e) =
              >>=-eq-ok
                (E.build_regex_set (map (λ p. p.regex) ps) regex_set_size_limit
                  regex_set_dfa_size_limit)
                _ (rw many at h) in
            let l' =
              subst (λ x. runtime_labeler E target field ps x ≡ ok r) (sym (ok-injective e)) l in
            subst (IsCompiled target field ps) (ok-injective l')
              (ground (arith, many), refl, refl, refl, built)
      ]

  pub IsCompiled-target :
      (target : LabelTarget) (field : String) (ps : List LabelPattern) (r : Runtime E)
      → IsCompiled target field ps r
      → runtime_target E r ≡ target
  IsCompiled-target target field ps (regex_labeler t f named) h = h.1
  IsCompiled-target target field ps (regex_set_labeler t f names c) h = h.1
