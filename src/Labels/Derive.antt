-- ===== src/Labels/Derive.antt =====
-- `RegexSetLabeler::derive`: the labels of a resource.
use treetop_bundle.Labels.Compiled.{IsCompiled-of_labeler}
use treetop_bundle.Error.{ok}
use treetop_bundle.Base.{
  sym, ◌∙◌, length-map, subst, map, ℕ, zero, suc, ◌<◌, String, ◌≡◌, refl, Option, none, some, List,
  [], ◌∷◌, arith, length, get_elem?, All,
}
use treetop_bundle.Labels.Rules.{
  regex_set_labeler, runtime_labeler, compile_patterns, CompiledPatterns, LabelPattern, LabelTarget,
  Engine,
}

-- Core's `AttrValue`, as far as the labeler tells its values apart.
pub data AttrValue : Type 0 where
  string_value : String → AttrValue
  string_set : List String → AttrValue
  other_value : AttrValue

-- An indexing `self.names[index]` out of range panics.
pub data Outcome (A : Type 0) : Type 0 where
  returns : A → Outcome A
  panics : Outcome A

infixl 5 ◌>>=◌
abbrev pub ◌>>=◌ : {A B : Type 0} → Outcome A → (A → Outcome B) → Outcome B
returns a >>= f = f a
panics >>= f = panics

unfoldable pub index_name : List String → ℕ → Outcome String
index_name names i = elim (get_elem? names i) [ none ↦ panics | some s ↦ returns s ]

unfoldable pub index_names : List String → List ℕ → Outcome (List String)
unfolding index_name
index_names names [] = returns []
index_names names (i ∷ is) = do
  name ← index_name names i
  rest ← index_names names is
  returns (name ∷ rest)

module _ (E : Engine) where
  -- The value of the input field is the text to match; any other value derives nothing.
  unfoldable pub derive : List String → E.RegexSet → Option AttrValue → Outcome (Option AttrValue)
  unfolding index_names
  derive names compiled (some (string_value value)) = do
    labels ← index_names names (E.matches compiled value)
    returns (some (string_set labels))
  derive names compiled _ = returns none

-- The names at the indices.
abbrev pub NamesAt : List String → List ℕ → List String → Type 0
NamesAt names [] labels = labels ≡ []
NamesAt names (i ∷ is) labels =
    (s : String) × (rest : List String) × (labels ≡ s ∷ rest)
    × (get_elem? names i ≡ some s)
    × NamesAt names is rest

get_elem?-eq-some :
    (names : List String) (i : ℕ) → i < length names → (s : String) × (get_elem? names i ≡ some s)
get_elem?-eq-some [] i h = absurd (omega arith)
get_elem?-eq-some (s ∷ names) zero h = (s, refl)
get_elem?-eq-some (s ∷ names) (suc i) h = get_elem?-eq-some names i (omega arith)

index_names-returns :
    (names : List String) (is : List ℕ)
    → All (λ i. i < length names) is
    → (labels : List String) × (index_names names is ≡ returns labels) × NamesAt names is labels
unfolding index_names
index_names-returns names [] h = ([], refl, refl)
index_names-returns names (i ∷ is) h =
    let (s, e) = get_elem?-eq-some names i h.0 in
    let (rest, e', at) = index_names-returns names is h.1 in
    (s ∷ rest, ground (arith, e, e'), (s, rest, refl, e, at))

-- What the library documents of a set: it reports indices of the patterns that it was made of.
abbrev pub ReportsPatterns : Engine → Type 0
ReportsPatterns E =
    (sources : List String) (size dfa_size : ℕ) (compiled : E.RegexSet) (value : String)
    → E.build_regex_set sources size dfa_size ≡ ok compiled
    → All (λ i. i < length sources) (E.matches compiled value)

-- The labeler of a set that the program makes never panics: from a text it derives the names of the
-- patterns that match, in the order in which the set reports them, if a set reports only indices of
-- the patterns that it was made of.
pub derive_total :
    (E : Engine)
    → ReportsPatterns E
    → (target t : LabelTarget) (field f : String) (ps : List LabelPattern)
      (made : CompiledPatterns E) (names : List String) (compiled : E.RegexSet) (value : String)
    → compile_patterns E ps ≡ ok made
    → runtime_labeler E target field ps made ≡ ok (regex_set_labeler t f names compiled)
    → (labels : List String) × (derive E names compiled (some (string_value value))
        ≡ returns (some (string_set labels)))
      × NamesAt (map (λ p. p.name) ps) (E.matches compiled value) labels
unfolding derive
derive_total E reports target t field f ps made names compiled value h l =
    let (_, _, _, same, built) =
      IsCompiled-of_labeler E target field ps made (regex_set_labeler t f names compiled) h l in
    let bounded =
      subst (λ n. All (λ i. i < n) (E.matches compiled value))
        (length-map (λ p. p.regex) ps ∙ sym (length-map (λ p. p.name) ps))
        (reports (map (λ p. p.regex) ps) _ _ compiled value built) in
    let (labels, e, at) =
      index_names-returns (map (λ p. p.name) ps) (E.matches compiled value) bounded in
    (labels, rw (same, e) refl, at)
