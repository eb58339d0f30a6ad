-- ===== src/Validation/Resolves.antt =====
-- `record_attributes` without fuel, and the fuel that is enough for it.
use treetop_bundle.Validation.LabelSchema.{enough_fuel}
use treetop_bundle.Validation.CommonNames.{length-schema_names, In-schema_names, schema_names}
use treetop_bundle.Labels.Schema.{
  follow_reference, record_attributes, common_type, text_is, resolve_name,
}
use treetop_bundle.Base.{
  ◌↔◌, [], refl, subst, ◌∙◌, if◌then◌else◌, Option-cases, inr, inl, length-Distinct, Bool-cases,
  arith, zero, Distinct, ℕ, suc, ◌+◌, ◌≤◌, ◌≡◌, String, ◌<>◌, true, false, Option, none, some, List,
  ◌∷◌, contains, In, All, length,
}
use treetop_bundle.Json.{as_object, as_str, Fields, get, Json, ◌>>=◌}

module _ (schema_json : Json) where
  -- The name that a shape refers to.
  abbrev pub named : Json → Option String
  named shape = get "name" shape >>= as_str

  abbrev pub qualified : String → String → String
  qualified namespace name =
      (resolve_name namespace name).0 <> ("::" <> (resolve_name namespace name).1)

  -- What the search finds from a shape in a namespace, after it has followed the names: a record's
  -- attributes, nothing at a shape of another kind, at a reference without a name, to a name that it
  -- has followed or to a type that is missing, and otherwise what it finds from the type referred to.
  pub data Resolves : String → Json → List String → Option Fields → Type 0 where
    at_record :
        {namespace : String} {shape : Json} {visited : List String}
        → text_is "Record" (get "type" shape) ≡ true
        → Resolves namespace shape visited (get "attributes" shape >>= as_object)
    at_other :
        {namespace : String} {shape : Json} {visited : List String}
        → text_is "Record" (get "type" shape) ≡ false
        → text_is "EntityOrCommon" (get "type" shape) ≡ false
        → Resolves namespace shape visited none
    at_unnamed :
        {namespace : String} {shape : Json} {visited : List String}
        → text_is "Record" (get "type" shape) ≡ false
        → text_is "EntityOrCommon" (get "type" shape) ≡ true
        → named shape ≡ none
        → Resolves namespace shape visited none
    at_cycle :
        {namespace : String} {shape : Json} {visited : List String} {name : String}
        → text_is "Record" (get "type" shape) ≡ false
        → text_is "EntityOrCommon" (get "type" shape) ≡ true
        → named shape ≡ some name
        → contains (qualified namespace name) visited ≡ true
        → Resolves namespace shape visited none
    at_missing :
        {namespace : String} {shape : Json} {visited : List String} {name : String}
        → text_is "Record" (get "type" shape) ≡ false
        → text_is "EntityOrCommon" (get "type" shape) ≡ true
        → named shape ≡ some name
        → contains (qualified namespace name) visited ≡ false
        → common_type schema_json (resolve_name namespace name).0 (resolve_name namespace name).1
          ≡ none
        → Resolves namespace shape visited none
    follows :
        {namespace : String} {shape : Json} {visited : List String} {name : String} {common : Json}
        {found : Option Fields}
        → text_is "Record" (get "type" shape) ≡ false
        → text_is "EntityOrCommon" (get "type" shape) ≡ true
        → named shape ≡ some name
        → contains (qualified namespace name) visited ≡ false
        → common_type schema_json (resolve_name namespace name).0 (resolve_name namespace name).1
          ≡ some common
        → Resolves (resolve_name namespace name).0 common (qualified namespace name ∷ visited) found
        → Resolves namespace shape visited found

  -- The names followed are distinct names of common types, and the fuel is enough for the others.
  record Fuelled (fuel : ℕ) (visited : List String) : Type 0 where
    distinct : Distinct visited
    common : All (λ name. In name (schema_names (as_object schema_json))) visited
    enough : suc (length (schema_names (as_object schema_json))) ≤ fuel + length visited

  no_fuel : {visited : List String} → Fuelled zero visited → ⊥
  no_fuel {visited} f = absurd (
      omega (
        arith,
        f.enough,
        length-Distinct visited (schema_names (as_object schema_json)) f.distinct f.common,
      ))

  one_more :
      {fuel : ℕ} {visited : List String} (namespace basename : String) {common : Json}
      → Fuelled (suc fuel) visited
      → contains (namespace <> ("::" <> basename)) visited ≡ false
      → common_type schema_json namespace basename ≡ some common
      → Fuelled fuel ((namespace <> ("::" <> basename)) ∷ visited)
  one_more namespace basename f new found = record {
    distinct = (new, f.distinct);
    common = (In-schema_names schema_json namespace basename found, f.common);
    enough = omega (arith, f.enough);
  }

  -- A search that is sound from the type referred to is sound from the reference.
  follow_reference-Resolves :
      (next : String → Json → List String → Option Fields) (namespace : String) (shape : Json)
      (visited : List String)
      → text_is "Record" (get "type" shape) ≡ false
      → text_is "EntityOrCommon" (get "type" shape) ≡ true
      → ((name : String) (common : Json)
          → contains (qualified namespace name) visited ≡ false
          → common_type schema_json (resolve_name namespace name).0 (resolve_name namespace name).1
            ≡ some common
          → Resolves
              (resolve_name namespace name).0
              common
              (qualified namespace name ∷ visited)
              (next (resolve_name namespace name).0 common (qualified namespace name ∷ visited)))
      → Resolves namespace shape visited (follow_reference schema_json next namespace shape visited)
  unfolding follow_reference
  follow_reference-Resolves next namespace shape visited e e2 sound =
      elim (Option-cases (get "name" shape)) [
        | inl n ↦ rw n (at_unnamed e e2 (rw n refl))
        | inr (value, n) ↦ elim (Option-cases (as_str value)) [
          | inl m ↦ rw n (rw m (at_unnamed e e2 (rw n m)))
          | inr (name, m) ↦ elim (Bool-cases (contains (qualified namespace name) visited)) [
            | inl c ↦ rw n (rw m (rw c (at_cycle {name = name} e e2 (rw n m) c)))
            | inr c ↦
                elim (Option-cases (
                  common_type schema_json (resolve_name namespace name).0
                    (resolve_name namespace name).1)) [
                      | inl t ↦
                          rw n (rw m (rw c (rw t (at_missing {name = name} e e2 (rw n m) c t))))
                      | inr (common, t) ↦ rw n (
                          rw m (
                            rw c (
                              rw t
                                (follows {name = name} e e2 (rw n m) c t (sound name common c t)))))
                    ]
          ]
        ]
      ]

  -- The search finds what the fuelled search finds.
  record_attributes-Resolves :
      (fuel : ℕ) (namespace : String) (shape : Json) (visited : List String)
      → Fuelled fuel visited
      → Resolves namespace shape visited
          (record_attributes schema_json fuel namespace shape visited)
  unfolding record_attributes
  record_attributes-Resolves zero namespace shape visited f = absurd (no_fuel f)
  record_attributes-Resolves (suc fuel) namespace shape visited f =
      elim (Bool-cases (text_is "Record" (get "type" shape))) [
        | inl e ↦ rw e (at_record e)
        | inr e ↦ elim (Bool-cases (text_is "EntityOrCommon" (get "type" shape))) [
          | inr e2 ↦ rw e (rw e2 (at_other e e2))
          | inl e2 ↦ rw e (
              rw e2 (
                follow_reference-Resolves (record_attributes schema_json fuel) namespace shape
                  visited e e2
                  (λ name common c t.
                    record_attributes-Resolves fuel _ common _ (one_more _ _ f c t))))
        ]
      ]

  follow_reference-unnamed :
      (next : String → Json → List String → Option Fields) (namespace : String) (shape : Json)
      (visited : List String)
      → named shape ≡ none
      → follow_reference schema_json next namespace shape visited ≡ none
  unfolding follow_reference
  follow_reference-unnamed next namespace shape visited h = elim (Option-cases (get "name" shape)) [
    | inl n ↦ rw n refl
    | inr (value, n) ↦
        let m : as_str value ≡ none = subst (λ o. (o >>= as_str) ≡ none) n h in rw n (rw m refl)
  ]

  -- What follows the name of a reference.
  abbrev after_name :
      (String → Json → List String → Option Fields) → String → List String → String → Option Fields
  after_name next namespace visited name =
      if contains (qualified namespace name) visited
      then none
      else (common_type schema_json (resolve_name namespace name).0 (resolve_name namespace name).1
          >>= λ common.
              next (resolve_name namespace name).0 common (qualified namespace name ∷ visited))

  follow_reference-named :
      (next : String → Json → List String → Option Fields) (namespace : String) (shape : Json)
      (visited : List String) {name : String}
      → named shape ≡ some name
      → follow_reference schema_json next namespace shape visited
        ≡ after_name next namespace visited name
  unfolding follow_reference
  follow_reference-named next namespace shape visited {name} h =
      elim (Option-cases (get "name" shape)) [
        | inl n ↦
            let absent : none ≡ some name = subst (λ o. (o >>= as_str) ≡ some name) n h in absurd cc
        | inr (value, n) ↦
            let m : as_str value ≡ some name = subst (λ o. (o >>= as_str) ≡ some name) n h in
            rw n (rw m refl)
      ]

  -- The fuelled search finds what the search finds.
  record_attributes_complete :
      (fuel : ℕ) (namespace : String) (shape : Json) (visited : List String) {found : Option Fields}
      → Fuelled fuel visited
      → Resolves namespace shape visited found
      → record_attributes schema_json fuel namespace shape visited ≡ found
  unfolding record_attributes
  record_attributes_complete zero namespace shape visited f d = absurd (no_fuel f)
  record_attributes_complete (suc fuel) namespace shape visited f (at_record e) = rw e refl
  record_attributes_complete (suc fuel) namespace shape visited f (at_other e e2) =
      rw e (rw e2 refl)
  record_attributes_complete (suc fuel) namespace shape visited f (at_unnamed e e2 n) = rw e (
      rw e2
        (follow_reference-unnamed (record_attributes schema_json fuel) namespace shape visited n))
  record_attributes_complete (suc fuel) namespace shape visited f (at_cycle e e2 n c) = rw e (
      rw e2 (
        follow_reference-named (record_attributes schema_json fuel) namespace shape visited n
        ∙ rw c refl))
  record_attributes_complete (suc fuel) namespace shape visited f (at_missing e e2 n c t) = rw e (
      rw e2 (
        follow_reference-named (record_attributes schema_json fuel) namespace shape visited n
        ∙ rw c (rw t refl)))
  record_attributes_complete (suc fuel) namespace shape visited f (follows e e2 n c t d) = rw e (
      rw e2 (
        follow_reference-named (record_attributes schema_json fuel) namespace shape visited n
        ∙ rw c (rw t (record_attributes_complete fuel _ _ _ (one_more _ _ f c t) d))))

  all_fuel : Fuelled (enough_fuel schema_json) []
  unfolding enough_fuel
  all_fuel = record {
    distinct = tt;
    common = tt;
    enough = omega (arith, length-schema_names (as_object schema_json));
  }

  -- With the fuel that the schema document gives it, the search for the attributes of a shape ends
  -- and finds what the search without fuel finds, also where common types refer to one another in a
  -- circle.
  pub record_attributes_iff :
      (namespace : String) (shape : Json) (found : Option Fields)
      → (record_attributes schema_json (enough_fuel schema_json) namespace shape [] ≡ found)
        ↔ Resolves namespace shape [] found
  record_attributes_iff namespace shape found = (
    λ h.
        subst (Resolves namespace shape []) h
          (record_attributes-Resolves (enough_fuel schema_json) namespace shape [] all_fuel),
    λ d. record_attributes_complete (enough_fuel schema_json) namespace shape [] all_fuel d,
  )
