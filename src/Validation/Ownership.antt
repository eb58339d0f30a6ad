-- ===== src/Validation/Ownership.antt =====
-- `validate_policy_ownership`: an ordinary policy stays in its module's namespace and its imports.
use treetop_bundle.Base.{String, Bool, not, ◌||◌, List, [], ◌∷◌, ◌++◌, any, if◌then◌else◌}
use treetop_bundle.Diagnostic.{Diagnostic, text, debug, error}
use treetop_bundle.Error.{Result, ok, err}
use treetop_bundle.Host.{ModuleRole, ordinary, global}
use treetop_bundle.Namespace.{namespace_owns}
use treetop_bundle.Validation.Policy.{
  Expr, EntityOrSlot, entity, slot, ActionConstraint, any_action, action_eq, action_in,
  ScopeConstraint, any_entity, scope_eq, scope_in, scope_is, scope_is_in, Clause, when_clause,
  unless_clause, Body, Policy, collect_expr_references,
}

-- `ModuleRecord`
pub record ModuleRecord : Type 0 where
  pub name : String
  pub namespace : String
  pub imports : List String
  pub role : ModuleRole
  pub policy_ids : List String

-- `collect_entity_or_slot`: the references that it pushes.
unfoldable pub collect_entity_or_slot : EntityOrSlot → List String
collect_entity_or_slot (entity ty) = ty ∷ []
collect_entity_or_slot slot = []

unfoldable pub scope_references : ScopeConstraint → List String
unfolding collect_entity_or_slot
scope_references any_entity = []
scope_references (scope_eq value) = collect_entity_or_slot value
scope_references (scope_in value) = collect_entity_or_slot value
scope_references (scope_is ty) = ty ∷ []
scope_references (scope_is_in ty value) = ty ∷ collect_entity_or_slot value

unfoldable pub action_references : ActionConstraint → List String
action_references any_action = []
action_references (action_eq ty) = ty ∷ []
action_references (action_in tys) = tys

abbrev pub clause_expression : Clause → Expr
clause_expression (when_clause e) = e
clause_expression (unless_clause e) = e

unfoldable pub clause_references : List Clause → List String
clause_references [] = []
clause_references (c ∷ cs) = collect_expr_references (clause_expression c) ++ clause_references cs

unfoldable pub body_references : Body → List String
unfolding scope_references action_references clause_references
body_references body =
    scope_references body.principal
    ++ (scope_references body.resource
        ++ (action_references body.action ++ clause_references body.clauses))

-- `check_owned_action`: the diagnostics that it pushes.
unfoldable pub check_owned_action : String → String → ModuleRecord → List Diagnostic
check_owned_action entity_type policy_id m =
    if not (namespace_owns m.namespace entity_type)
    then error "policy.action_namespace_violation" (
        text "ordinary policy "
        ∷ debug policy_id
        ∷ text " constrains action type "
        ∷ text entity_type
        ∷ text " outside namespace "
        ∷ text m.namespace
        ∷ [])
      ∷ []
    else []

unfoldable pub check_owned_actions : List String → String → ModuleRecord → List Diagnostic
unfolding check_owned_action
check_owned_actions [] policy_id m = []
check_owned_actions (ty ∷ tys) policy_id m =
    check_owned_action ty policy_id m ++ check_owned_actions tys policy_id m

unfoldable pub check_action : ActionConstraint → String → ModuleRecord → List Diagnostic
unfolding check_owned_actions
check_action any_action policy_id m =
    error "policy.action_unconstrained"
      (text "ordinary policy " ∷ debug policy_id ∷ text " must constrain its actions" ∷ [])
    ∷ []
check_action (action_eq ty) policy_id m = check_owned_action ty policy_id m
check_action (action_in tys) policy_id m = check_owned_actions tys policy_id m

-- The module's namespace or one of its imports owns the reference.
unfoldable pub is_allowed : ModuleRecord → String → Bool
is_allowed m reference =
    namespace_owns m.namespace reference
    || any (λ import. namespace_owns import reference) m.imports

unfoldable pub check_references : List String → String → ModuleRecord → List Diagnostic
check_references [] policy_id m = []
check_references (reference ∷ references) policy_id m =
    (if not (is_allowed m reference)
      then error "policy.namespace_violation" (
          text "policy "
          ∷ debug policy_id
          ∷ text " references "
          ∷ text reference
          ∷ text ", outside namespace "
          ∷ text m.namespace
          ∷ text " and its imports"
          ∷ [])
        ∷ []
      else [])
    ++ check_references references policy_id m

-- The part for a policy that can be represented; a global module may refer to anything.
unfoldable pub check_body : ModuleRole → Body → String → ModuleRecord → List Diagnostic
unfolding check_action check_references body_references is_allowed
check_body global body policy_id m = []
check_body ordinary body policy_id m =
    check_action body.action policy_id m ++ check_references (body_references body) policy_id m

unfoldable pub check_pst : Result String Body → String → ModuleRecord → List Diagnostic
unfolding check_body
check_pst (err e) policy_id m =
    error "policy.structured_representation" (
      text "policy " ∷ debug policy_id ∷ text " cannot be represented structurally: " ∷ text e ∷ [])
    ∷ []
check_pst (ok body) policy_id m = check_body m.role body policy_id m

-- `validate_policy_ownership`: the diagnostics that it pushes.
unfoldable pub validate_policy_ownership : Policy → String → ModuleRecord → List Diagnostic
unfolding check_pst
validate_policy_ownership policy policy_id m = check_pst policy.pst policy_id m
