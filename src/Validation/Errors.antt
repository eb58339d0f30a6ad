-- ===== src/Validation/Errors.antt =====
-- The check of a policy reports errors only, so that it reports nothing where there is no error.
use treetop_bundle.Namespace.{namespace_owns}
use treetop_bundle.Validation.Policy.{
  any_action, action_in, action_eq, Body, Policy, ActionConstraint,
}
use treetop_bundle.Host.{ordinary, global, ModuleRole}
use treetop_bundle.Validation.Ownership.{
  body_references, is_allowed, ModuleRecord, check_action, check_references,
  validate_policy_ownership, check_body, check_pst, check_owned_action, check_owned_actions,
}
use treetop_bundle.Base.{
  ◌≡◌, refl, inl, inr, String, Bool, true, false, not, ◌||◌, List, [], ◌∷◌, ◌++◌, all, arith,
  Bool-cases, if◌then◌else◌,
}
use treetop_bundle.Diagnostic.{Diagnostic, has_error, is_error}
use treetop_bundle.Error.{Result, ok, err}

pub has_error-append :
    (xs ys : List Diagnostic) → has_error (xs ++ ys) ≡ (has_error xs || has_error ys)
has_error-append [] ys = refl
has_error-append (x ∷ xs) ys = ground (arith, has_error-append xs ys)

-- Every diagnostic is an error.
abbrev AllErrors : List Diagnostic → Type 0
AllErrors ds = all is_error ds ≡ true

AllErrors-append : (xs ys : List Diagnostic) → AllErrors xs → AllErrors ys → AllErrors (xs ++ ys)
AllErrors-append [] ys h h' = h'
AllErrors-append (x ∷ xs) ys h h' =
    let rest : AllErrors (xs ++ ys) = AllErrors-append xs ys (ground (arith, h)) h' in
    ground (arith, h, rest)

no_errors : (ds : List Diagnostic) → AllErrors ds → has_error ds ≡ false → ds ≡ []
no_errors [] h h' = refl
no_errors (d ∷ ds) h h' = absurd (ground (arith, h, h'))

AllErrors-when :
    (b : Bool) (d : Diagnostic) → is_error d ≡ true → AllErrors (if b then d ∷ [] else [])
AllErrors-when true d h = ground (arith, h)
AllErrors-when false d h = refl

AllErrors-owned : (ty id : String) (m : ModuleRecord) → AllErrors (check_owned_action ty id m)
unfolding check_owned_action
AllErrors-owned ty id m = AllErrors-when (not (namespace_owns m.namespace ty)) _ refl

AllErrors-all_owned :
    (tys : List String) (id : String) (m : ModuleRecord) → AllErrors (check_owned_actions tys id m)
unfolding check_owned_actions
AllErrors-all_owned [] id m = refl
AllErrors-all_owned (ty ∷ tys) id m =
    AllErrors-append (check_owned_action ty id m) _ (AllErrors-owned ty id m)
      (AllErrors-all_owned tys id m)

AllErrors-action :
    (a : ActionConstraint) (id : String) (m : ModuleRecord) → AllErrors (check_action a id m)
unfolding check_action
AllErrors-action any_action id m = refl
AllErrors-action (action_eq ty) id m = AllErrors-owned ty id m
AllErrors-action (action_in tys) id m = AllErrors-all_owned tys id m

AllErrors-references :
    (tys : List String) (id : String) (m : ModuleRecord) → AllErrors (check_references tys id m)
unfolding check_references
AllErrors-references [] id m = refl
AllErrors-references (ty ∷ tys) id m = elim (Bool-cases (is_allowed m ty)) [
  | inl allowed ↦ rw allowed (AllErrors-references tys id m)
  | inr other ↦ rw other (AllErrors-references tys id m)
]

AllErrors-body :
    (role : ModuleRole) (body : Body) (id : String) (m : ModuleRecord)
    → AllErrors (check_body role body id m)
unfolding check_body
AllErrors-body global body id m = refl
AllErrors-body ordinary body id m =
    AllErrors-append (check_action body.action id m) _ (AllErrors-action body.action id m)
      (AllErrors-references (body_references body) id m)

AllErrors-pst :
    (r : Result String Body) (id : String) (m : ModuleRecord) → AllErrors (check_pst r id m)
unfolding check_pst
AllErrors-pst (err e) id m = refl
AllErrors-pst (ok body) id m = AllErrors-body m.role body id m

-- A check without errors is a check that pushes nothing.
pub validate_policy_ownership-eq-nil :
    (policy : Policy) (id : String) (m : ModuleRecord)
    → has_error (validate_policy_ownership policy id m) ≡ false
    → validate_policy_ownership policy id m ≡ []
unfolding validate_policy_ownership
validate_policy_ownership-eq-nil policy id m =
    no_errors (check_pst policy.pst id m) (AllErrors-pst policy.pst id m)
