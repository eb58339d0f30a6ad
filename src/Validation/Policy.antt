-- ===== src/Validation/Policy.antt =====
-- Cedar's structured policies (`cedar_policy::pst`), as far as the program takes them apart, and
-- the entity types that an expression mentions. An entity type is its text.
use treetop_bundle.Base.{
  ℕ, String, ◌≡◌, ◌↔◌, ◌⊎◌, inl, inr, Bool, Option, List, [], ◌∷◌, ◌++◌, In, In-append,
  In-append_left, In-append_right,
}
use treetop_bundle.Error.{Result}

mutual
  -- Of an entity literal the type is kept; `other` is every expression of the wildcard arm of
  -- `collect_expr_references`, into which the program does not look.
  pub data Expr : Type 0 where
    entity_literal : String → Expr
    unary_op get_attr has_attr like : Expr → Expr
    binary_op : Expr → Expr → Expr
    is_type : String → Expr → Expr
    is_type_in : String → Expr → Expr → Expr
    if_then_else : Expr → Expr → Expr → Expr
    set_of record_of : Exprs → Expr
    other : Expr

  pub data Exprs : Type 0 where
    nil : Exprs
    cons : Expr → Exprs → Exprs

pub data EntityOrSlot : Type 0 where
  entity : String → EntityOrSlot
  slot : EntityOrSlot

pub data ActionConstraint : Type 0 where
  any_action : ActionConstraint
  action_eq : String → ActionConstraint
  action_in : List String → ActionConstraint

-- `PrincipalConstraint` and `ResourceConstraint` have the same cases.
pub data ScopeConstraint : Type 0 where
  any_entity : ScopeConstraint
  scope_eq scope_in : EntityOrSlot → ScopeConstraint
  scope_is : String → ScopeConstraint
  scope_is_in : String → EntityOrSlot → ScopeConstraint

pub data Clause : Type 0 where
  when_clause unless_clause : Expr → Clause

pub record Body : Type 0 where
  pub principal : ScopeConstraint
  pub action : ActionConstraint
  pub resource : ScopeConstraint
  pub clauses : List Clause

-- `policy.annotation("id")`, `policy.is_static()`, `policy.to_pst()`
pub record Policy : Type 0 where
  pub id : Option String
  pub is_static : Bool
  pub pst : Result String Body

-- `policies()`, `num_of_templates()`
pub record PolicySet : Type 0 where
  pub policies : List Policy
  pub num_of_templates : ℕ

-- `collect_expr_references`: the references that it pushes.
unfoldable mutual
  pub collect_expr_references : Expr → List String
  collect_expr_references (entity_literal ty) = ty ∷ []
  collect_expr_references (unary_op e) = collect_expr_references e
  collect_expr_references (get_attr e) = collect_expr_references e
  collect_expr_references (has_attr e) = collect_expr_references e
  collect_expr_references (like e) = collect_expr_references e
  collect_expr_references (binary_op left right) =
      collect_expr_references left ++ collect_expr_references right
  collect_expr_references (is_type ty e) = ty ∷ collect_expr_references e
  collect_expr_references (is_type_in ty e in_expr) =
      ty ∷ (collect_expr_references e ++ collect_expr_references in_expr)
  collect_expr_references (if_then_else c t e) =
      collect_expr_references c ++ (collect_expr_references t ++ collect_expr_references e)
  collect_expr_references (set_of es) = collect_all_references es
  collect_expr_references (record_of es) = collect_all_references es
  collect_expr_references other = []

  pub collect_all_references : Exprs → List String
  collect_all_references nil = []
  collect_all_references (cons e es) = collect_expr_references e ++ collect_all_references es

-- An expression mentions an entity type: in a literal or an `is` test, at any depth.
mutual
  pub data Mentions (ty : String) : Expr → Type 0 where
    here_literal : {t : String} → ty ≡ t → Mentions ty (entity_literal t)
    in_unary : {e : Expr} → Mentions ty e → Mentions ty (unary_op e)
    in_get : {e : Expr} → Mentions ty e → Mentions ty (get_attr e)
    in_has : {e : Expr} → Mentions ty e → Mentions ty (has_attr e)
    in_like : {e : Expr} → Mentions ty e → Mentions ty (like e)
    in_left : {l r : Expr} → Mentions ty l → Mentions ty (binary_op l r)
    in_right : {l r : Expr} → Mentions ty r → Mentions ty (binary_op l r)
    here_is : {t : String} {e : Expr} → ty ≡ t → Mentions ty (is_type t e)
    in_is : {t : String} {e : Expr} → Mentions ty e → Mentions ty (is_type t e)
    here_is_in : {t : String} {e i : Expr} → ty ≡ t → Mentions ty (is_type_in t e i)
    in_is_in : {t : String} {e i : Expr} → Mentions ty e → Mentions ty (is_type_in t e i)
    in_is_in_target : {t : String} {e i : Expr} → Mentions ty i → Mentions ty (is_type_in t e i)
    in_cond : {c t e : Expr} → Mentions ty c → Mentions ty (if_then_else c t e)
    in_then : {c t e : Expr} → Mentions ty t → Mentions ty (if_then_else c t e)
    in_else : {c t e : Expr} → Mentions ty e → Mentions ty (if_then_else c t e)
    in_set : {es : Exprs} → MentionsAny ty es → Mentions ty (set_of es)
    in_record : {es : Exprs} → MentionsAny ty es → Mentions ty (record_of es)

  pub data MentionsAny (ty : String) : Exprs → Type 0 where
    in_head : {e : Expr} {es : Exprs} → Mentions ty e → MentionsAny ty (cons e es)
    in_tail : {e : Expr} {es : Exprs} → MentionsAny ty es → MentionsAny ty (cons e es)

mutual
  unfolding collect_expr_references

  collected : {ty : String} {e : Expr} → Mentions ty e → In ty (collect_expr_references e)
  collected (here_literal p) = inl p
  collected (in_unary m) = collected m
  collected (in_get m) = collected m
  collected (in_has m) = collected m
  collected (in_like m) = collected m
  collected (in_left m) = In-append_left _ _ _ (collected m)
  collected (in_right {l} m) = In-append_right _ (collect_expr_references l) _ (collected m)
  collected (here_is p) = inl p
  collected (in_is m) = inr (collected m)
  collected (here_is_in p) = inl p
  collected (in_is_in m) = inr (In-append_left _ _ _ (collected m))
  collected (in_is_in_target {e} m) =
      inr (In-append_right _ (collect_expr_references e) _ (collected m))
  collected (in_cond m) = In-append_left _ _ _ (collected m)
  collected (in_then {c} m) =
      In-append_right _ (collect_expr_references c) _ (In-append_left _ _ _ (collected m))
  collected (in_else {c} {t} m) =
      In-append_right _ (collect_expr_references c) _
        (In-append_right _ (collect_expr_references t) _ (collected m))
  collected (in_set m) = collected_any m
  collected (in_record m) = collected_any m

  collected_any : {ty : String} {es : Exprs} → MentionsAny ty es → In ty (collect_all_references es)
  collected_any (in_head m) = In-append_left _ _ _ (collected m)
  collected_any (in_tail {e} m) = In-append_right _ (collect_expr_references e) _ (collected_any m)

abbrev either {ℓ} : {A B : Type 0} {C : Type ℓ} → (A → C) → (B → C) → A ⊎ B → C
either f g (inl a) = f a
either f g (inr b) = g b

mutual
  unfolding collect_expr_references

  mentioned : (ty : String) (e : Expr) → In ty (collect_expr_references e) → Mentions ty e
  mentioned ty (entity_literal t) m = either here_literal (λ n. absurd n) m
  mentioned ty (unary_op e) m = in_unary (mentioned ty e m)
  mentioned ty (get_attr e) m = in_get (mentioned ty e m)
  mentioned ty (has_attr e) m = in_has (mentioned ty e m)
  mentioned ty (like e) m = in_like (mentioned ty e m)
  mentioned ty (binary_op l r) m =
      either (λ n. in_left (mentioned ty l n)) (λ n. in_right (mentioned ty r n))
        (In-append ty _ _ m)
  mentioned ty (is_type t e) m = either here_is (λ n. in_is (mentioned ty e n)) m
  mentioned ty (is_type_in t e i) m =
      either here_is_in
        (λ n.
          either (λ k. in_is_in (mentioned ty e k)) (λ k. in_is_in_target (mentioned ty i k))
            (In-append ty _ _ n))
        m
  mentioned ty (if_then_else c t e) m =
      either (λ n. in_cond (mentioned ty c n))
        (λ n.
          either (λ k. in_then (mentioned ty t k)) (λ k. in_else (mentioned ty e k))
            (In-append ty _ _ n))
        (In-append ty _ _ m)
  mentioned ty (set_of es) m = in_set (mentioned_any ty es m)
  mentioned ty (record_of es) m = in_record (mentioned_any ty es m)
  mentioned ty other m = absurd m

  mentioned_any : (ty : String) (es : Exprs) → In ty (collect_all_references es) → MentionsAny ty es
  mentioned_any ty nil m = absurd m
  mentioned_any ty (cons e es) m =
      either (λ n. in_head (mentioned ty e n)) (λ n. in_tail (mentioned_any ty es n))
        (In-append ty _ _ m)

-- The references collected from an expression are exactly the entity types that it mentions.
pub collect_expr_references_iff :
    (ty : String) (e : Expr) → In ty (collect_expr_references e) ↔ Mentions ty e
collect_expr_references_iff ty e = (mentioned ty e, λ m. collected m)
