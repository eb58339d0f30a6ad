-- ===== src/Validation/Contained.antt =====
-- What the content of an archive that `validate_archive_parts` accepts satisfies.
use treetop_bundle.Validation.StaysIn.{validate_policy_ownership_iff, StaysIn}
use treetop_bundle.Validation.Errors.{has_error-append, validate_policy_ownership-eq-nil}
use treetop_bundle.Validation.ArchiveParts.{
  check_all_archived, module_by_policy, Actual, check_archived, check_assigned,
}
use treetop_bundle.Host.{ordinary, ModuleRole, global}
use treetop_bundle.Validation.ModulePolicies.{check_prefix, duplicate_id, missing_id, policy_id}
use treetop_bundle.Validation.Policy.{Policy}
use treetop_bundle.Validation.Ownership.{validate_policy_ownership, ModuleRecord}
use treetop_bundle.Base.{
  All-map, eq_refl, ◌≡◌, ◌≢◌, ◌∙◌, refl, sym, ap, subst, inl, inr, ◌⊎◌, ◌↔◌, String, Bool, true,
  false, Option, some, List, [], ◌∷◌, ◌++◌, arith, Bool-cases, Option-cases, if◌then◌else◌,
  contains, All, AllPairs, In, set_insert, contains-set_insert, eq_iff, ◌==◌, In→contains,
  contains→In,
}
use treetop_bundle.Diagnostic.{has_error}

-- A global module may refer to anything; an ordinary policy stays in its module.
abbrev pub KeepsTo : ModuleRecord → Policy → Type 0
KeepsTo m policy = (m.role ≡ global) ⊎ StaysIn m policy

-- The policy has an identifier, which is assigned to a module to which the policy keeps.
abbrev pub IsPlaced : List ModuleRecord → Policy → Type 0
IsPlaced modules policy =
    (id : String) × (m : ModuleRecord) × (policy_id policy ≡ some id)
    × (module_by_policy id modules ≡ some m)
    × KeepsTo m policy

role_cases : (role : ModuleRole) → (role ≡ global) ⊎ (role ≡ ordinary)
role_cases ordinary = inr refl
role_cases global = inl refl

once-of_quiet :
    (b : Bool) (id : String)
    → has_error (if b then duplicate_id id ∷ [] else []) ≡ false
    → b ≡ false
unfolding duplicate_id
once-of_quiet true id h = absurd cc
once-of_quiet false id h = refl

pub some-injective : {A : Type 0} {a b : A} → ◌≡◌ {A = Option A} (some a) (some b) → a ≡ b
some-injective h = cc

pub KeepsTo-of_ownership :
    (policy : Policy) (id : String) (m : ModuleRecord)
    → has_error (validate_policy_ownership policy id m) ≡ false
    → KeepsTo m policy
KeepsTo-of_ownership policy id m h =
    let quiet = validate_policy_ownership-eq-nil policy id m h in
    elim (role_cases m.role) [
      | inl e ↦ inl e
      | inr e ↦ inr ((validate_policy_ownership_iff policy id m e).0 quiet)
    ]

module _ (modules : List ModuleRecord) where
  IsPlaced-of_assigned :
      (policy : Policy) (id : String)
      → policy_id policy ≡ some id
      → has_error (check_assigned policy id (module_by_policy id modules)) ≡ false
      → IsPlaced modules policy
  unfolding check_assigned
  IsPlaced-of_assigned policy id named h = elim (Option-cases (module_by_policy id modules)) [
    | inl e ↦
        absurd (ground (arith, subst (λ o. has_error (check_assigned policy id o) ≡ false) e h))
    | inr (m, e) ↦
        let h' = subst (λ o. has_error (check_assigned policy id o) ≡ false) e h in
        let split =
          has_error-append (check_prefix m.name id) (validate_policy_ownership policy id m) in
        (id, m, named, e, KeepsTo-of_ownership policy id m (ground (arith, h', split)))
  ]

  -- The loop over the policies from a state without errors to one without errors.
  pub record Checked (policies : List Policy) (before after : Actual) : Type 0 where
    pub quiet : has_error before.diagnostics ≡ false
    pub placed : All (IsPlaced modules) policies
    pub fresh :
        All
          (λ p. (id : String) → policy_id p ≡ some id → contains id before.actual_ids ≡ false)
          policies
    pub distinct : AllPairs (λ p q. policy_id p ≢ policy_id q) policies
    pub ids :
        (id : String)
        → In id after.actual_ids
          ↔ (In id before.actual_ids ⊎ ((p : Policy) × In p policies × (policy_id p ≡ some id)))

  -- One round that adds no error.
  record Round (policy : Policy) (before : Actual) : Type 0 where
    pub quiet : has_error before.diagnostics ≡ false
    id : String
    named : policy_id policy ≡ some id
    pub fresh : contains id before.actual_ids ≡ false
    pub placed : IsPlaced modules policy
    inserted :
        (check_archived modules policy (policy_id policy) before).actual_ids
        ≡ set_insert id before.actual_ids

  Round-of_quiet :
      (policy : Policy) (s : Actual)
      → has_error (check_archived modules policy (policy_id policy) s).diagnostics ≡ false
      → Round policy s
  unfolding check_archived missing_id duplicate_id
  Round-of_quiet policy s h = elim (Option-cases (policy_id policy)) [
    | inl e ↦
        let h' =
          subst (λ o. has_error (check_archived modules policy o s).diagnostics ≡ false) e h in
        absurd (ground (arith, h', has_error-append s.diagnostics (missing_id ∷ [])))
    | inr (id, e) ↦
        let h' =
          subst (λ o. has_error (check_archived modules policy o s).diagnostics ≡ false) e h in
        let twice = if contains id s.actual_ids then duplicate_id id ∷ [] else [] in
        let assigned = check_assigned policy id (module_by_policy id modules) in
        let outer = has_error-append s.diagnostics (twice ++ assigned) in
        let inner = has_error-append twice assigned in
        record {
          quiet = ground (arith, h', outer);
          id = id;
          named = e;
          fresh = once-of_quiet (contains id s.actual_ids) id (ground (arith, h', outer, inner));
          placed = IsPlaced-of_assigned policy id e (ground (arith, h', outer, inner));
          inserted = ap (λ o. (check_archived modules policy o s).actual_ids) e;
        }
  ]

  -- An identifier of the state after a round.
  Round-ids :
      (policy : Policy) (s : Actual) (r : Round policy s) (k : String)
      → contains k (check_archived modules policy (policy_id policy) s).actual_ids
        ≡ (if k == r.id then true else contains k s.actual_ids)
  Round-ids policy s r k = ap (contains k) r.inserted ∙ contains-set_insert k r.id s.actual_ids

  Checked-ids :
      (policy : Policy) (policies : List Policy) (before after : Actual) (r : Round policy before)
      → Checked policies (check_archived modules policy (policy_id policy) before) after
      → (id : String)
      → In id after.actual_ids ↔ (
          In id before.actual_ids
          ⊎ ((p : Policy) × In p (policy ∷ policies) × (policy_id p ≡ some id)))
  Checked-ids policy policies before after r rest id = (
    λ m. elim ((rest.ids id).0 m) [
      | inl early ↦
          let c : contains id (check_archived modules policy (policy_id policy) before).actual_ids
              ≡ true =
            In→contains id _ early in
          let split = Round-ids policy before r id in
          elim (Bool-cases (id == r.id)) [
            | inl same ↦ inr (policy, inl refl, r.named ∙ ap some (sym ((eq_iff id r.id).0 same)))
            | inr other ↦ inl (contains→In id before.actual_ids (ground (arith, c, split, other)))
          ]
      | inr (p, there, named) ↦ inr (p, inr there, named)
    ],
    λ m. elim m [
      | inl early ↦
          let c : contains id before.actual_ids ≡ true = In→contains id _ early in
          (rest.ids id).1 (inl (contains→In id _ (ground (arith, c, Round-ids policy before r id))))
      | inr (p, inl here, named) ↦
          let same : id ≡ r.id = some-injective (sym named ∙ ap policy_id here ∙ r.named) in
          (rest.ids id).1 (
            inl (
              contains→In id _
                (ground (arith, (eq_iff id r.id).1 same, Round-ids policy before r id))))
      | inr (p, inr there, named) ↦ (rest.ids id).1 (inr (p, there, named))
    ],
  )

  pub checked :
      (policies : List Policy) (s : Actual)
      → has_error (check_all_archived modules policies s).diagnostics ≡ false
      → Checked policies s (check_all_archived modules policies s)
  unfolding check_all_archived
  checked [] s h = record {
    quiet = h;
    placed = tt;
    fresh = tt;
    distinct = tt;
    ids = λ id. (
      λ m. inl m,
      λ m. elim m [ inl early ↦ early | inr (p, none_left, named) ↦ absurd none_left ],
    );
  }
  checked (policy ∷ policies) s h =
      let rest = checked policies (check_archived modules policy (policy_id policy) s) h in
      let r = Round-of_quiet policy s rest.quiet in
      record {
        quiet = r.quiet;
        placed = (r.placed, rest.placed);
        fresh = (
          λ id named.
              subst (λ x. contains x s.actual_ids ≡ false) (some-injective (sym r.named ∙ named))
                r.fresh,
          All-map _ _ policies (λ p f id named. ground (arith, f id named, Round-ids policy s r id))
              rest.fresh,
        );
        distinct = (
          All-map _ _ policies
              (λ p f same. absurd (
                ground
                  (arith, f r.id (sym same ∙ r.named), Round-ids policy s r r.id, eq_refl r.id)))
              rest.fresh,
          rest.distinct,
        );
        ids = Checked-ids policy policies s _ r rest;
      }
