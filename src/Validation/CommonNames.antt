-- ===== src/Validation/CommonNames.antt =====
-- The qualified names of the common types of a schema document, which bound the search for attributes.
use treetop_bundle.Labels.Schema.{common_type}
use treetop_bundle.Validation.LabelSchema.{
  count_namespaces, count_fields, count_common, count_object,
}
use treetop_bundle.Base.{
  subst, ◌∙◌, In-append_left, In-append_right, if◌then◌else◌, suc, ◌+◌, ◌≡◌, refl, sym, ap, String,
  ◌<>◌, Bool, Option, none, some, List, [], ◌∷◌, ◌++◌, In, arith, length, inl, inr, Bool-cases,
  eq_iff, ◌==◌,
}
use treetop_bundle.Json.{
  null, bool, number, string, array, object, end, get, as_object, Json, field, Fields, get_field,
  ◌>>=◌,
}

-- The qualified names of the common types of a namespace.
abbrev pub type_names : String → Fields → List String
type_names namespace end = []
type_names namespace (field k v rest) = (namespace <> ("::" <> k)) ∷ type_names namespace rest

abbrev pub object_names : String → Option Fields → List String
object_names namespace none = []
object_names namespace (some fields) = type_names namespace fields

abbrev pub common_names : Fields → List String
common_names end = []
common_names (field namespace definition rest) =
    object_names namespace (get "commonTypes" definition >>= as_object) ++ common_names rest

abbrev pub schema_names : Option Fields → List String
schema_names none = []
schema_names (some namespaces) = common_names namespaces

length-append : (xs ys : List String) → length (xs ++ ys) ≡ length xs + length ys
length-append [] ys = omega arith
length-append (x ∷ xs) ys = omega (arith, length-append xs ys)

length-type_names :
    (namespace : String) (fields : Fields)
    → length (type_names namespace fields) ≡ count_fields fields
unfolding count_fields
length-type_names namespace end = refl
length-type_names namespace (field k v rest) = ap suc (length-type_names namespace rest)

length-object_names :
    (namespace : String) (o : Option Fields) → length (object_names namespace o) ≡ count_object o
unfolding count_object
length-object_names namespace none = refl
length-object_names namespace (some fields) = length-type_names namespace fields

length-common_names :
    (namespaces : Fields) → length (common_names namespaces) ≡ count_common namespaces
unfolding count_common
length-common_names end = refl
length-common_names (field namespace definition rest) =
    let o = get "commonTypes" definition >>= as_object in
    omega (
      arith,
      length-append (object_names namespace o) (common_names rest),
      length-object_names namespace o,
      length-common_names rest,
    )

pub length-schema_names : (o : Option Fields) → length (schema_names o) ≡ count_namespaces o
unfolding count_namespaces
length-schema_names none = refl
length-schema_names (some namespaces) = length-common_names namespaces

In-type_names :
    (namespace basename : String) (fields : Fields) {v : Json}
    → get_field basename fields ≡ some v
    → In (namespace <> ("::" <> basename)) (type_names namespace fields)
unfolding get_field
In-type_names namespace basename end h = absurd cc
In-type_names namespace basename (field k w rest) h = elim (Bool-cases (k == basename)) [
  | inl same ↦ inl (ap (λ x. namespace <> ("::" <> x)) (sym ((eq_iff k basename).0 same)))
  | inr other ↦ inr (In-type_names namespace basename rest (sym (rw other refl) ∙ h))
]

In-object_names :
    (namespace basename : String) (value : Option Json) {v : Json}
    → (value >>= get basename) ≡ some v
    → In (namespace <> ("::" <> basename)) (object_names namespace (value >>= as_object))
unfolding get
In-object_names namespace basename (some (object fields)) h =
    In-type_names namespace basename fields h
In-object_names namespace basename (some null) h = absurd cc
In-object_names namespace basename (some (bool b)) h = absurd cc
In-object_names namespace basename (some (number n)) h = absurd cc
In-object_names namespace basename (some (string s)) h = absurd cc
In-object_names namespace basename (some (array items)) h = absurd cc
In-object_names namespace basename none h = absurd cc

In-common_names :
    (namespace basename : String) (namespaces : Fields) {v : Json}
    → (get_field namespace namespaces >>= λ d. get "commonTypes" d >>= get basename) ≡ some v
    → In (namespace <> ("::" <> basename)) (common_names namespaces)
unfolding get_field
In-common_names namespace basename end h = absurd cc
In-common_names namespace basename (field k definition rest) {v} h =
    elim (Bool-cases (k == namespace)) [
      | inl same ↦
          let e : k ≡ namespace = (eq_iff k namespace).0 same in
          In-append_left _ (object_names k (get "commonTypes" definition >>= as_object))
            (common_names rest)
            (subst
              (λ x.
                In (x <> ("::" <> basename))
                  (object_names k (get "commonTypes" definition >>= as_object)))
              e
              (In-object_names k basename (get "commonTypes" definition) (
                subst
                  (λ (b : Bool).
                    ((if b then some definition else get_field namespace rest) >>= λ d.
                    get "commonTypes" d >>= get basename)
                    ≡ some v)
                  same h)))
      | inr other ↦
          In-append_right _ (object_names k (get "commonTypes" definition >>= as_object))
            (common_names rest)
            (In-common_names namespace basename rest (
              subst
                (λ (b : Bool).
                  ((if b then some definition else get_field namespace rest) >>= λ d.
                  get "commonTypes" d >>= get basename)
                  ≡ some v)
                other h))
    ]

pub In-schema_names :
    (schema_json : Json) (namespace basename : String) {v : Json}
    → common_type schema_json namespace basename ≡ some v
    → In (namespace <> ("::" <> basename)) (schema_names (as_object schema_json))
unfolding common_type
In-schema_names (object namespaces) namespace basename h =
    In-common_names namespace basename namespaces h
In-schema_names null namespace basename h = absurd cc
In-schema_names (bool b) namespace basename h = absurd cc
In-schema_names (number n) namespace basename h = absurd cc
In-schema_names (string s) namespace basename h = absurd cc
In-schema_names (array items) namespace basename h = absurd cc
