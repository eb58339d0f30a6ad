-- ===== src/Archive/Canonical.antt =====
-- The canonical form of JSON values that `sort_json` gives.
use treetop_bundle.Archive.Encode.{sort_items, sort_fields, insert_sorted, sort_json}
use treetop_bundle.Base.{
  str_ltb_irrefl, StrLe-of_lt, ◌≡◌, ◌∙◌, refl, sym, ap, subst, inl, inr, String, true, false, ◌==◌,
  eq_iff, str_ltb, str_ltb_trans, str_ltb_connex, Bool-cases, arith,
}
use treetop_bundle.Json.{
  Json, null, bool, number, string, array, object, Items, nil, item, Fields, end, field,
}

-- Every key comes after the given one.
abbrev pub Above : String → Fields → Type 0
Above k end = Unit {0}
Above k (field j v rest) = (str_ltb k j ≡ true) × Above k rest

-- The keys of every object ascend.
abbrev mutual
  pub IsCanonical : Json → Type 0
  IsCanonical (object fields) = CanonicalFields fields
  IsCanonical (array items) = CanonicalItems items
  IsCanonical null = Unit {0}
  IsCanonical (bool b) = Unit {0}
  IsCanonical (number n) = Unit {0}
  IsCanonical (string s) = Unit {0}

  pub CanonicalFields : Fields → Type 0
  CanonicalFields end = Unit {0}
  CanonicalFields (field k v rest) = IsCanonical v × Above k rest × CanonicalFields rest

  pub CanonicalItems : Items → Type 0
  CanonicalItems nil = Unit {0}
  CanonicalItems (item v rest) = IsCanonical v × CanonicalItems rest

Above-trans :
    (k j : String) (fields : Fields) → str_ltb k j ≡ true → Above j fields → Above k fields
Above-trans k j end h above = tt
Above-trans k j (field i v rest) h above =
    (str_ltb_trans k j i h above.0, Above-trans k j rest h above.1)

insert_sorted-Above :
    (a k : String) (v : Json) (fields : Fields)
    → str_ltb a k ≡ true
    → Above a fields
    → Above a (insert_sorted k v fields)
unfolding insert_sorted
insert_sorted-Above a k v end h above = (h, tt)
insert_sorted-Above a k v (field j w rest) h above = elim (Bool-cases (j == k)) [
  | inl same ↦ rw same (h, above.1)
  | inr other ↦ elim (Bool-cases (str_ltb k j)) [
    | inl before ↦ rw other (rw before (h, above))
    | inr later ↦ rw other (rw later (above.0, insert_sorted-Above a k v rest h above.1))
  ]
]

insert_sorted-CanonicalFields :
    (k : String) (v : Json) (fields : Fields)
    → IsCanonical v
    → CanonicalFields fields
    → CanonicalFields (insert_sorted k v fields)
unfolding insert_sorted
insert_sorted-CanonicalFields k v end good canonical = (good, tt, tt)
insert_sorted-CanonicalFields k v (field j w rest) good canonical = elim (Bool-cases (j == k)) [
  | inl same ↦
      rw same (good, subst (λ x. Above x rest) ((eq_iff j k).0 same) canonical.1, canonical.2)
  | inr other ↦ elim (Bool-cases (str_ltb k j)) [
    | inl before ↦
        rw other (rw before (good, (before, Above-trans k j rest before canonical.1), canonical))
    | inr later ↦
        let lt : str_ltb j k ≡ true = ground (arith, str_ltb_connex j k, eq_iff j k) in
        rw other (
          rw later (
            canonical.0,
            insert_sorted-Above j k v rest lt canonical.1,
            insert_sorted-CanonicalFields k v rest good canonical.2,
          ))
  ]
]

mutual
  unfolding sort_json

  sorted_json : (value : Json) → IsCanonical (sort_json value)
  sorted_json (object fields) = sorted_fields end fields tt
  sorted_json (array items) = sorted_items items
  sorted_json null = tt
  sorted_json (bool b) = tt
  sorted_json (number n) = tt
  sorted_json (string s) = tt

  sorted_fields :
      (sorted fields : Fields)
      → CanonicalFields sorted
      → CanonicalFields (sort_fields sorted fields)
  sorted_fields sorted end canonical = canonical
  sorted_fields sorted (field k v rest) canonical =
      sorted_fields (insert_sorted k (sort_json v) sorted) rest
        (insert_sorted-CanonicalFields k (sort_json v) sorted (sorted_json v) canonical)

  sorted_items : (items : Items) → CanonicalItems (sort_items items)
  sorted_items nil = tt
  sorted_items (item v rest) = (sorted_json v, sorted_items rest)

-- A last field.
abbrev snoc : Fields → String → Json → Fields
snoc end k v = field k v end
snoc (field j w rest) k v = field j w (snoc rest k v)

abbrev append : Fields → Fields → Fields
append end fields = fields
append (field k v rest) fields = field k v (append rest fields)

append-snoc :
    (sorted : Fields) (k : String) (v : Json) (rest : Fields)
    → append (snoc sorted k v) rest ≡ append sorted (field k v rest)
append-snoc end k v rest = refl
append-snoc (field j w sorted) k v rest = ap (field j w) (append-snoc sorted k v rest)

append-end : (fields : Fields) → append fields end ≡ fields
append-end end = refl
append-end (field k v rest) = ap (field k v) (append-end rest)

-- Every key comes before the given one, and before every key of other fields.
abbrev Below : Fields → String → Type 0
Below end k = Unit {0}
Below (field j v rest) k = (str_ltb j k ≡ true) × Below rest k

abbrev Precedes : Fields → Fields → Type 0
Precedes sorted end = Unit {0}
Precedes sorted (field k v rest) = Below sorted k × Precedes sorted rest

Below-snoc :
    (sorted : Fields) (k j : String) (v : Json)
    → Below sorted j
    → str_ltb k j ≡ true
    → Below (snoc sorted k v) j
Below-snoc end k j v below h = (h, tt)
Below-snoc (field i w sorted) k j v below h = (below.0, Below-snoc sorted k j v below.1 h)

Precedes-snoc :
    (sorted : Fields) (k : String) (v : Json) (fields : Fields)
    → Precedes sorted fields
    → Above k fields
    → Precedes (snoc sorted k v) fields
Precedes-snoc sorted k v end before above = tt
Precedes-snoc sorted k v (field j w rest) before above =
    (Below-snoc sorted k j v before.0 above.0, Precedes-snoc sorted k v rest before.1 above.1)

insert_sorted-last :
    (k : String) (v : Json) (sorted : Fields)
    → Below sorted k
    → insert_sorted k v sorted ≡ snoc sorted k v
unfolding insert_sorted
insert_sorted-last k v end below = refl
insert_sorted-last k v (field j w rest) below =
    let other : (j == k) ≡ false = ground (arith, below.0, eq_iff j k, str_ltb_irrefl k) in
    let later : str_ltb k j ≡ false = StrLe-of_lt j k below.0 in
    rw other (rw later (ap (field j w) (insert_sorted-last k v rest below.1)))

Precedes-end : (fields : Fields) → Precedes end fields
Precedes-end end = tt
Precedes-end (field k v rest) = (tt, Precedes-end rest)

mutual
  unfolding sort_json

  fixed_json : (value : Json) → IsCanonical value → sort_json value ≡ value
  fixed_json (object fields) canonical =
      ap object (fixed_fields end fields canonical (Precedes-end fields))
  fixed_json (array items) canonical = ap array (fixed_items items canonical)
  fixed_json null canonical = refl
  fixed_json (bool b) canonical = refl
  fixed_json (number n) canonical = refl
  fixed_json (string s) canonical = refl

  fixed_fields :
      (sorted fields : Fields)
      → CanonicalFields fields
      → Precedes sorted fields
      → sort_fields sorted fields ≡ append sorted fields
  fixed_fields sorted end canonical before = sym (append-end sorted)
  fixed_fields sorted (field k v rest) canonical before =
      let inserted : insert_sorted k (sort_json v) sorted ≡ snoc sorted k v =
        ap (λ x. insert_sorted k x sorted) (fixed_json v canonical.0)
        ∙ insert_sorted-last k v sorted before.0 in
      ap (λ x. sort_fields x rest) inserted
      ∙ fixed_fields (snoc sorted k v) rest canonical.2
          (Precedes-snoc sorted k v rest before.1 canonical.1)
      ∙ append-snoc sorted k v rest

  fixed_items : (items : Items) → CanonicalItems items → sort_items items ≡ items
  fixed_items nil canonical = refl
  fixed_items (item v rest) canonical =
      ap (λ x. item x (sort_items rest)) (fixed_json v canonical.0)
      ∙ ap (item v) (fixed_items rest canonical.1)

-- Sorting a value makes the keys of every object in it ascend, so that no key is repeated, and
-- sorting it again changes nothing.
pub sort_json_idem :
    (value : Json) → IsCanonical (sort_json value) × (sort_json (sort_json value) ≡ sort_json value)
sort_json_idem value = (sorted_json value, fixed_json (sort_json value) (sorted_json value))
