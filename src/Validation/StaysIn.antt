-- ===== src/Validation/StaysIn.antt =====
-- What it means that a policy stays in its module, and that the check decides it.
use treetop_bundle.Base.{
  sym, subst, In-append_right, In-append_left, In-append, String, ◌≡◌, ◌↔◌, ◌⊎◌, inl, inr, refl,
  Bool, true, false, not, List, [], ◌∷◌, ◌++◌, All, In, arith, append-eq-nil, All-of_In, In→All,
  when-eq-nil, if◌then◌else◌,
}
use treetop_bundle.Error.{Result, ok, err}
use treetop_bundle.Host.{ModuleRole, ordinary}
use treetop_bundle.Namespace.{namespace_owns}
use treetop_bundle.Validation.Policy.{
  Mentions, collect_expr_references_iff, EntityOrSlot, entity, slot, ActionConstraint, any_action,
  action_eq, action_in, ScopeConstraint, any_entity, scope_eq, scope_in, scope_is, scope_is_in,
  Clause, Body, Policy,
}
use treetop_bundle.Validation.Ownership.{
  ModuleRecord, scope_references, action_references, clause_expression, clause_references,
  body_references, check_owned_action, check_owned_actions, check_action, is_allowed,
  check_references, check_body, check_pst, validate_policy_ownership,
}

-- A constrained action whose types all lie in the namespace.
abbrev pub OwnsAction : ModuleRecord → ActionConstraint → Type 0
OwnsAction m any_action = ⊥
OwnsAction m (action_eq ty) = namespace_owns m.namespace ty ≡ true
OwnsAction m (action_in tys) = All (λ ty. namespace_owns m.namespace ty ≡ true) tys

check_owned_actions_iff :
    (tys : List String) (id : String) (m : ModuleRecord)
    → (check_owned_actions tys id m ≡ []) ↔ All (λ ty. namespace_owns m.namespace ty ≡ true) tys
unfolding check_owned_actions
check_owned_actions_iff [] id m = (λ h. tt, λ h. refl)
check_owned_actions_iff (ty ∷ tys) id m = (
  λ h.
      let (a, b) = append-eq-nil (check_owned_action ty id m) _ h in
      (ground arith, (check_owned_actions_iff tys id m).0 b),
  λ h. rw h.0 ((check_owned_actions_iff tys id m).1 h.1),
)

check_action_iff :
    (a : ActionConstraint) (id : String) (m : ModuleRecord)
    → (check_action a id m ≡ []) ↔ OwnsAction m a
unfolding check_action
check_action_iff any_action id m = (λ h. cc, λ h. absurd h)
check_action_iff (action_eq ty) id m = (λ h. ground arith, λ h. rw h refl)
check_action_iff (action_in tys) id m = check_owned_actions_iff tys id m

check_references_iff :
    (rs : List String) (id : String) (m : ModuleRecord)
    → (check_references rs id m ≡ []) ↔ All (λ r. is_allowed m r ≡ true) rs
unfolding check_references
check_references_iff [] id m = (λ h. tt, λ h. refl)
check_references_iff (r ∷ rs) id m = (
  λ h.
      let (a, b) = append-eq-nil (if not (is_allowed m r) then _ else []) _ h in
      (not_false (when-eq-nil _ _ a), (check_references_iff rs id m).0 b),
  λ h. rw h.0 ((check_references_iff rs id m).1 h.1),
)
  where
    not_false : {b : Bool} → not b ≡ false → b ≡ true
    not_false h = ground arith

-- An entity type stands in a scope, an action constraint or a clause of the policy.
abbrev pub EntityMentions : String → EntityOrSlot → Type 0
EntityMentions ty (entity t) = ty ≡ t
EntityMentions ty slot = ⊥

abbrev pub ScopeMentions : String → ScopeConstraint → Type 0
ScopeMentions ty any_entity = ⊥
ScopeMentions ty (scope_eq value) = EntityMentions ty value
ScopeMentions ty (scope_in value) = EntityMentions ty value
ScopeMentions ty (scope_is t) = ty ≡ t
ScopeMentions ty (scope_is_in t value) = (ty ≡ t) ⊎ EntityMentions ty value

abbrev pub ActionMentions : String → ActionConstraint → Type 0
ActionMentions ty any_action = ⊥
ActionMentions ty (action_eq t) = ty ≡ t
ActionMentions ty (action_in tys) = In ty tys

abbrev pub ClausesMention : String → List Clause → Type 0
ClausesMention ty [] = ⊥
ClausesMention ty (c ∷ cs) = Mentions ty (clause_expression c) ⊎ ClausesMention ty cs

abbrev pub BodyMentions : String → Body → Type 0
BodyMentions ty body =
    ScopeMentions ty body.principal
    ⊎ (ScopeMentions ty body.resource
        ⊎ (ActionMentions ty body.action ⊎ ClausesMention ty body.clauses))

abbrev SameIn : String → List String → Type 0 → Type 0
SameIn ty rs P = In ty rs ↔ P

one_iff : (ty t : String) → In ty (t ∷ []) ↔ (ty ≡ t)
one_iff ty t = (λ m. elim m [ inl e ↦ e | inr n ↦ absurd n ], λ e. inl e)

scope_references_iff :
    (ty : String) (c : ScopeConstraint) → In ty (scope_references c) ↔ ScopeMentions ty c
unfolding scope_references
scope_references_iff ty any_entity = (λ m. m, λ m. m)
scope_references_iff ty (scope_eq (entity t)) = one_iff ty t
scope_references_iff ty (scope_eq slot) = (λ m. m, λ m. m)
scope_references_iff ty (scope_in (entity t)) = one_iff ty t
scope_references_iff ty (scope_in slot) = (λ m. m, λ m. m)
scope_references_iff ty (scope_is t) = one_iff ty t
scope_references_iff ty (scope_is_in t (entity u)) = (
  λ m. elim m [ inl e ↦ inl e | inr n ↦ inr ((one_iff ty u).0 n) ],
  λ m. elim m [ inl e ↦ inl e | inr n ↦ inr (inl n) ],
)
scope_references_iff ty (scope_is_in t slot) = (λ m. m, λ m. m)

action_references_iff :
    (ty : String) (a : ActionConstraint) → In ty (action_references a) ↔ ActionMentions ty a
unfolding action_references
action_references_iff ty any_action = (λ m. m, λ m. m)
action_references_iff ty (action_eq t) = one_iff ty t
action_references_iff ty (action_in tys) = (λ m. m, λ m. m)

append_iff :
    {P Q : Type 0} (ty : String) (xs ys : List String)
    → In ty xs ↔ P
    → In ty ys ↔ Q
    → In ty (xs ++ ys) ↔ (P ⊎ Q)
append_iff ty xs ys p q = (
  λ m. elim (In-append ty xs ys m) [ inl l ↦ inl (p.0 l) | inr r ↦ inr (q.0 r) ],
  λ m. elim m [
    | inl l ↦ In-append_left ty xs ys (p.1 l)
    | inr r ↦ In-append_right ty xs ys (q.1 r)
  ],
)

clause_references_iff :
    (ty : String) (cs : List Clause) → In ty (clause_references cs) ↔ ClausesMention ty cs
unfolding clause_references
clause_references_iff ty [] = (λ m. m, λ m. m)
clause_references_iff ty (c ∷ cs) =
    append_iff ty _ _ (collect_expr_references_iff ty (clause_expression c))
      (clause_references_iff ty cs)

body_references_iff :
    (ty : String) (body : Body) → In ty (body_references body) ↔ BodyMentions ty body
unfolding body_references
body_references_iff ty body = append_iff ty _ _ (scope_references_iff ty body.principal) (
    append_iff ty _ _ (scope_references_iff ty body.resource) (
      append_iff ty _ _ (action_references_iff ty body.action)
        (clause_references_iff ty body.clauses)))

-- An ordinary policy that stays in its module: it is representable, it constrains its actions to
-- types of the namespace, and its namespace or an import owns each entity type that it mentions.
pub record StaysIn (m : ModuleRecord) (policy : Policy) : Type 0 where
  pub body : Body
  pub represented : policy.pst ≡ ok body
  pub action : OwnsAction m body.action
  pub mentions : (ty : String) → BodyMentions ty body → is_allowed m ty ≡ true

-- For an ordinary module, the check of a policy pushes nothing exactly when the policy stays in the
-- module.
pub validate_policy_ownership_iff :
    (policy : Policy) (id : String) (m : ModuleRecord)
    → m.role ≡ ordinary
    → (validate_policy_ownership policy id m ≡ []) ↔ StaysIn m policy
unfolding validate_policy_ownership
validate_policy_ownership_iff policy id m role = (λ h. to policy.pst refl h, from)
  where
    to : (r : Result String Body) → policy.pst ≡ r → check_pst r id m ≡ [] → StaysIn m policy
    to (err e) eq h = cc
    to (ok body) eq h =
        let h' : check_body ordinary body id m ≡ [] =
          subst (λ (r : ModuleRole). check_body r body id m ≡ []) role h in
        let (a, b) = append-eq-nil (check_action body.action id m) _ h' in
        record {
          body = body;
          represented = eq;
          action = (check_action_iff body.action id m).0 a;
          mentions = λ ty mentioned.
              In→All _ (body_references body)
                ((check_references_iff (body_references body) id m).0 b) ty
                ((body_references_iff ty body).1 mentioned);
        }

    from : StaysIn m policy → validate_policy_ownership policy id m ≡ []
    from s =
        let inside : check_body ordinary s.body id m ≡ [] =
          rw ((check_action_iff s.body.action id m).1 s.action) (
            (check_references_iff (body_references s.body) id m).1 (
              All-of_In _ (body_references s.body)
                (λ ty n. s.mentions ty ((body_references_iff ty s.body).0 n)))) in
        rw s.represented
          (subst (λ (r : ModuleRole). check_body r s.body id m ≡ []) (sym role) inside)
