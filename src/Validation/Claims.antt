-- ===== src/Validation/Claims.antt =====
-- What `validate_module_policies` guarantees of the policies of a file in which it finds no error.
use treetop_bundle.Validation.Contained.{KeepsTo-of_ownership, KeepsTo}
use treetop_bundle.Validation.Errors.{has_error-append}
use treetop_bundle.Validation.ModulePolicies.{
  check_prefix, push, duplicate_id, has_templates, missing_id, located, policy_id, Claimed,
  templates_unsupported, claim_policy, validate_module_policies, claim_policies,
}
use treetop_bundle.Validation.Policy.{PolicySet, Policy}
use treetop_bundle.Validation.Ownership.{validate_policy_ownership, ModuleRecord}
use treetop_bundle.Base.{
  ◌≡◌, refl, ap, subst, inl, inr, String, Bool, true, false, ◌||◌, Option, none, some, List, [],
  ◌∷◌, ◌++◌, map, arith, Option-cases, if◌then◌else◌, contains, All, IsAscending,
  set_insert-IsAscending,
}
use treetop_bundle.Diagnostic.{Diagnostic, has_error, is_error}

-- The policy has an identifier and keeps to the module.
abbrev pub IsClaimed : ModuleRecord → Policy → Type 0
IsClaimed m policy = (id : String) × (policy_id policy ≡ some id) × KeepsTo m policy

module _ (m : ModuleRecord) (relative : String) where
  has_error-located :
      (ds : List Diagnostic) → has_error (map (located m relative) ds) ≡ has_error ds
  has_error-located [] = refl
  has_error-located (d ∷ ds) = ap (λ b. is_error d || b) (has_error-located ds)

  -- The loop from a state without errors to one without errors.
  pub record Claims (policies : List Policy) (before after : Claimed) : Type 0 where
    pub quiet : has_error before.diagnostics ≡ false
    pub claimed : All (IsClaimed m) policies

  claim_policy-quiet :
      (policy : Policy) (s : Claimed)
      → has_error (claim_policy m relative policy (policy_id policy) s).diagnostics ≡ false
      → (has_error s.diagnostics ≡ false) × IsClaimed m policy
  unfolding claim_policy missing_id
  claim_policy-quiet policy s h = elim (Option-cases (policy_id policy)) [
    | inl e ↦
        let h' =
          subst (λ o. has_error (claim_policy m relative policy o s).diagnostics ≡ false) e h in
        absurd
          (ground (arith, h', has_error-append s.diagnostics (located m relative missing_id ∷ [])))
    | inr (id, e) ↦
        let h' =
          subst (λ o. has_error (claim_policy m relative policy o s).diagnostics ≡ false) e h in
        let twice =
          if contains id s.all_policy_ids then located m relative (duplicate_id id) ∷ [] else [] in
        let prefix = map (located m relative) (check_prefix m.name id) in
        let owned = map (located m relative) (validate_policy_ownership policy id m) in
        let outer = has_error-append s.diagnostics (twice ++ (prefix ++ owned)) in
        let inner = has_error-append twice (prefix ++ owned) in
        let last = has_error-append prefix owned in
        let same = has_error-located (validate_policy_ownership policy id m) in
        (
          ground (arith, h', outer),
          (id, e, KeepsTo-of_ownership policy id m (ground (arith, h', outer, inner, last, same))),
        )
  ]

  pub claim_policies-Claims :
      (policies : List Policy) (s : Claimed)
      → has_error (claim_policies m relative policies s).diagnostics ≡ false
      → Claims policies s (claim_policies m relative policies s)
  unfolding claim_policies
  claim_policies-Claims [] s h = record { quiet = h; claimed = tt }
  claim_policies-Claims (policy ∷ policies) s h =
      let rest =
        claim_policies-Claims policies (claim_policy m relative policy (policy_id policy) s) h in
      let (quiet, claimed) = claim_policy-quiet policy s rest.quiet in
      record { quiet = quiet; claimed = (claimed, rest.claimed) }

  claim_policy-IsAscending :
      (policy : Policy) (o : Option String) (s : Claimed)
      → IsAscending s.all_policy_ids
      → IsAscending (claim_policy m relative policy o s).all_policy_ids
  unfolding claim_policy
  claim_policy-IsAscending policy none s h = h
  claim_policy-IsAscending policy (some id) s h = set_insert-IsAscending id s.all_policy_ids h

  claim_policies-IsAscending :
      (policies : List Policy) (s : Claimed)
      → IsAscending s.all_policy_ids
      → IsAscending (claim_policies m relative policies s).all_policy_ids
  unfolding claim_policies
  claim_policies-IsAscending [] s h = h
  claim_policies-IsAscending (policy ∷ policies) s h =
      claim_policies-IsAscending policies (claim_policy m relative policy (policy_id policy) s)
        (claim_policy-IsAscending policy (policy_id policy) s h)

  -- A file in which the check finds no error has static policies that the module may claim.
  pub module_policies_quiet :
      (set : PolicySet) (s : Claimed)
      → has_error (validate_module_policies m relative set s).diagnostics ≡ false
      → (has_error s.diagnostics ≡ false)
        × (has_templates set ≡ false)
        × All (IsClaimed m) set.policies
  unfolding validate_module_policies templates_unsupported
  module_policies_quiet set s h =
      let unsupported =
        if has_templates set then located m relative templates_unsupported ∷ [] else [] in
      let loop = claim_policies-Claims set.policies (push unsupported s) h in
      let split = has_error-append s.diagnostics unsupported in
      (
        ground (arith, loop.quiet, split),
        static_of_quiet (has_templates set) (ground (arith, loop.quiet, split)),
        loop.claimed,
      )
    where
      static_of_quiet :
          (b : Bool)
          → has_error (if b then located m relative templates_unsupported ∷ [] else []) ≡ false
          → b ≡ false
      static_of_quiet true h = absurd cc
      static_of_quiet false h = refl

  pub module_policies-IsAscending :
      (set : PolicySet) (s : Claimed)
      → IsAscending s.all_policy_ids
      → IsAscending (validate_module_policies m relative set s).all_policy_ids
  unfolding validate_module_policies
  module_policies-IsAscending set s h = claim_policies-IsAscending set.policies _ h
