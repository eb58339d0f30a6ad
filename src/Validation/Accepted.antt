-- ===== src/Validation/Accepted.antt =====
-- What `validate_archive_parts` guarantees of the content that it accepts.
use treetop_bundle.Validation.SameSet.{same_set-contains}
use treetop_bundle.Validation.LabelSchema.{validate_schema}
use treetop_bundle.Validation.Contained.{checked, Checked, IsPlaced}
use treetop_bundle.Validation.SchemaParts.{validate_aggregate_schema_ownership}
use treetop_bundle.Validation.Errors.{has_error-append}
use treetop_bundle.Namespace.{namespace_owns}
use treetop_bundle.Validation.ModulePolicies.{templates_unsupported, policy_id, has_templates}
use treetop_bundle.Validation.Checks.{validate_policy_set}
use treetop_bundle.Validation.Policy.{Policy, PolicySet}
use treetop_bundle.Validation.Ownership.{ModuleRecord}
use treetop_bundle.Json.{Json}
use treetop_bundle.Labels.Rules.{rule_target, LabelRule, Engine}
use treetop_bundle.Validation.ArchiveParts.{
  check_all_archived, BundleParts, ids_mismatch, Actual, validate_archive_parts,
  archive_diagnostics, schema_invalid, check_archived_schema, check_label_owners, check_schema,
  same_set,
}
use treetop_bundle.Validation.Cedar.{Cedar}
use treetop_bundle.Base.{
  ◌≡◌, ◌≢◌, ◌∙◌, refl, sym, subst, inl, inr, ◌↔◌, String, Bool, true, false, Option, none, some,
  List, [], ◌∷◌, ◌++◌, any, arith, Bool-cases, if◌then◌else◌, All, AllPairs, In, In→contains,
  contains→In,
}
use treetop_bundle.Diagnostic.{has_error}
use treetop_bundle.Error.{ok-injective, Result, ok, err, >>=-eq-ok, map_err, map_err-eq-ok}

-- A module of the bundle owns the type that a label rule is for.
abbrev pub IsOwned : (E : Engine) → List ModuleRecord → LabelRule E → Type 0
IsOwned E modules rule =
    any (λ (m : ModuleRecord). namespace_owns m.namespace (rule_target E rule).resource_type)
      modules
    ≡ true

same_of_quiet : (b : Bool) → has_error (if b then [] else ids_mismatch ∷ []) ≡ false → b ≡ true
unfolding ids_mismatch
same_of_quiet true h = refl
same_of_quiet false h = absurd cc

static_of_quiet :
    (b : Bool) → has_error (if b then templates_unsupported ∷ [] else []) ≡ false → b ≡ false
unfolding templates_unsupported
static_of_quiet true h = absurd cc
static_of_quiet false h = refl

declared_ids :
    (modules : List ModuleRecord) (policies : List Policy) (before after : Actual)
    (declared : List String)
    → Checked modules policies before after
    → same_set after.actual_ids declared ≡ true
    → before.actual_ids ≡ []
    → (id : String) → In id declared ↔ ((p : Policy) × In p policies × (policy_id p ≡ some id))
declared_ids modules policies before after declared loop same empty id =
    let agree = same_set-contains after.actual_ids declared same id in
    (
      λ m.
          elim ((loop.ids id).0
            (contains→In id after.actual_ids (agree ∙ In→contains id declared m))) [
              | inl early ↦ absurd (subst (In id) empty early)
              | inr found ↦ found
            ],
      λ found.
          contains→In id declared
            (sym agree ∙ In→contains id after.actual_ids ((loop.ids id).1 (inr found))),
    )

module _ (C : Cedar) (E : Engine) (show : Json → String) where
  -- Policies and labels agree with the schema, where there is one.
  abbrev pub Agrees : Option Json → PolicySet → List (LabelRule E) → Type 0
  Agrees none set labels = Unit {0}
  Agrees (some value) set labels =
      (schema : C.Schema) × (C.schema_from_json value ≡ ok schema)
      × (has_error (validate_policy_set C set schema) ≡ false)
      × (has_error (validate_schema C E show value schema labels) ≡ false)

  pub record IsContained (modules : List ModuleRecord) (policies : String)
      (schema_json : Option Json) (labels : List (LabelRule E)) (declared : List String)
      : Type 0 where
    pub set : PolicySet
    pub parsed : C.parse_policies policies ≡ ok set
    pub static : has_templates set ≡ false
    pub placed : All (IsPlaced modules) set.policies
    pub distinct : AllPairs (λ p q. policy_id p ≢ policy_id q) set.policies
    pub ids :
        (id : String)
        → In id declared ↔ ((p : Policy) × In p set.policies × (policy_id p ≡ some id))
    pub schema : Agrees schema_json set labels
    pub owned : All (IsOwned E modules) labels

  IsOwned-of_quiet :
      (modules : List ModuleRecord) (labels : List (LabelRule E))
      → has_error (check_label_owners C E show modules labels) ≡ false
      → All (IsOwned E modules) labels
  unfolding check_label_owners
  IsOwned-of_quiet modules [] h = tt
  IsOwned-of_quiet modules (rule ∷ rules) h =
      elim (Bool-cases (
        any (λ (m : ModuleRecord). namespace_owns m.namespace (rule_target E rule).resource_type)
          modules)) [
            | inl e ↦ (e, IsOwned-of_quiet modules rules (rw e at h))
            | inr e ↦ absurd (let h' = rw e at h in ground (arith, h'))
          ]

  Agrees-of_quiet :
      (value : Json) (set : PolicySet) (labels : List (LabelRule E)) (r : Result String C.Schema)
      → C.schema_from_json value ≡ r
      → has_error (check_schema C E show value set labels r) ≡ false
      → Agrees (some value) set labels
  unfolding check_schema schema_invalid
  Agrees-of_quiet value set labels (ok schema) e h =
      let split =
        has_error-append (validate_policy_set C set schema)
          (validate_schema C E show value schema labels) in
      (schema, e, ground (arith, h, split), ground (arith, h, split))
  Agrees-of_quiet value set labels (err fault) e h = absurd cc

  schema_of_quiet :
      (schema_json : Option Json) (modules : List ModuleRecord) (set : PolicySet)
      (labels : List (LabelRule E))
      → has_error (check_archived_schema C E show schema_json modules set labels) ≡ false
      → Agrees schema_json set labels
  unfolding check_archived_schema
  schema_of_quiet none modules set labels h = tt
  schema_of_quiet (some value) modules set labels h =
      let split =
        has_error-append (validate_aggregate_schema_ownership value modules)
          (check_schema C E show value set labels (C.schema_from_json value)) in
      Agrees-of_quiet value set labels (C.schema_from_json value) refl (ground (arith, h, split))

  parts_of_quiet :
      (modules : List ModuleRecord) (schema_json : Option Json) (labels : List (LabelRule E))
      (declared : List String) (set : PolicySet) (policies : String)
      → C.parse_policies policies ≡ ok set
      → has_error (archive_diagnostics C E show modules schema_json labels declared set).diagnostics
        ≡ false
      → IsContained modules policies schema_json labels declared
  unfolding archive_diagnostics ids_mismatch templates_unsupported
  parts_of_quiet modules schema_json labels declared set policies parsed h =
      let start : Actual = record {
        actual_ids = [];
        diagnostics = if has_templates set then templates_unsupported ∷ [] else [];
      } in
      let s = check_all_archived modules set.policies start in
      let mismatch = if same_set s.actual_ids declared then [] else ids_mismatch ∷ [] in
      let schema_part = check_archived_schema C E show schema_json modules set labels in
      let label_part = check_label_owners C E show modules labels in
      let split = has_error-append s.diagnostics (mismatch ++ (schema_part ++ label_part)) in
      let split2 = has_error-append mismatch (schema_part ++ label_part) in
      let split3 = has_error-append schema_part label_part in
      let loop = checked modules set.policies start (ground (arith, h, split)) in
      let same : same_set s.actual_ids declared ≡ true =
        same_of_quiet (same_set s.actual_ids declared) (ground (arith, h, split, split2)) in
      record {
        set = set;
        parsed = parsed;
        static = static_of_quiet (has_templates set) loop.quiet;
        placed = loop.placed;
        distinct = loop.distinct;
        ids = λ id. declared_ids modules set.policies start s declared loop same refl id;
        schema =
            schema_of_quiet schema_json modules set labels
              (ground (arith, h, split, split2, split3));
        owned = IsOwned-of_quiet modules labels (ground (arith, h, split, split2, split3));
      }

  -- The parts that are returned are those that were checked.
  pub record HasParts (name : String) (modules : List ModuleRecord) (policies : String)
      (schema_json : Option Json) (labels : List (LabelRule E)) (parts : BundleParts E)
      : Type 0 where
    pub name_kept : parts.name ≡ name
    pub modules_kept : parts.modules ≡ modules
    pub policies_kept : parts.policies ≡ policies
    pub schema_kept : parts.schema_json ≡ schema_json
    pub labels_kept : parts.labels ≡ labels
    pub quiet : has_error parts.diagnostics ≡ false

  pub validate_archive_parts-HasParts :
      (name : String) (modules : List ModuleRecord) (policies : String) (schema_json : Option Json)
      (labels : List (LabelRule E)) (declared : List String) (parts : BundleParts E)
      → validate_archive_parts C E show name modules policies schema_json labels declared ≡ ok parts
      → HasParts name modules policies schema_json labels parts
  unfolding validate_archive_parts
  validate_archive_parts-HasParts name modules policies schema_json labels declared parts h =
      let (set, _, h1) = >>=-eq-ok (map_err _ (C.parse_policies policies)) _ h in
      let s = archive_diagnostics C E show modules schema_json labels declared set in
      elim (Bool-cases (has_error s.diagnostics)) [
        | inl bad ↦ absurd (let h2 = rw bad at h1 in cc)
        | inr quiet ↦
            let h2 = rw quiet at h1 in
            subst (HasParts name modules policies schema_json labels) (ok-injective h2) (record {
              name_kept = refl;
              modules_kept = refl;
              policies_kept = refl;
              schema_kept = refl;
              labels_kept = refl;
              quiet = quiet;
            })
      ]

  -- The content that `validate_archive_parts` accepts parses to static policies with distinct
  -- identifiers, the declared ones; each is assigned to a module to which it keeps: a global module,
  -- or an ordinary one in which the policy stays. Policies and labels agree with the schema, where
  -- there is one, and a module owns the type of every label rule.
  pub validate_archive_parts-IsContained :
      (name : String) (modules : List ModuleRecord) (policies : String) (schema_json : Option Json)
      (labels : List (LabelRule E)) (declared : List String) (parts : BundleParts E)
      → validate_archive_parts C E show name modules policies schema_json labels declared ≡ ok parts
      → IsContained modules policies schema_json labels declared
  unfolding validate_archive_parts
  validate_archive_parts-IsContained name modules policies schema_json labels declared parts h =
      let (set, parsed, h1) = >>=-eq-ok (map_err _ (C.parse_policies policies)) _ h in
      elim (Bool-cases (
        has_error
          (archive_diagnostics C E show modules schema_json labels declared set).diagnostics)) [
            | inl bad ↦ absurd (let h2 = rw bad at h1 in cc)
            | inr quiet ↦
                parts_of_quiet modules schema_json labels declared set policies
                  (map_err-eq-ok _ (C.parse_policies policies) parsed) quiet
          ]
