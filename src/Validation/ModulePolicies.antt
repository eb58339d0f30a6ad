-- ===== src/Validation/ModulePolicies.antt =====
-- `validate_module_policies`: the policies of one file, with the identifiers that they claim.
use treetop_bundle.Base.{
  String, ◌<>◌, Bool, not, ◌||◌, Option, none, some, List, [], ◌∷◌, ◌++◌, map, any, contains,
  nat_beq, is_empty_text, set_insert, starts_with, if◌then◌else◌,
}
use treetop_bundle.Diagnostic.{Diagnostic, text, debug, say, error, warning, in_module, at_path}
use treetop_bundle.Validation.Policy.{Policy, PolicySet}
use treetop_bundle.Validation.Ownership.{ModuleRecord, validate_policy_ownership}

-- `policy.annotation("id").filter(|id| !id.is_empty())`
unfoldable pub policy_id : Policy → Option String
policy_id policy = elim policy.id [
  | none ↦ none
  | some id ↦ if is_empty_text id then none else some id
]

-- A template, or a policy linked from one.
unfoldable pub has_templates : PolicySet → Bool
has_templates set = not (nat_beq set.num_of_templates 0) || any (λ p. not p.is_static) set.policies

unfoldable pub templates_unsupported : Diagnostic
templates_unsupported =
    error "policy.templates_unsupported" (say "deployable bundles may contain only static policies")

unfoldable pub missing_id : Diagnostic
missing_id =
    error "policy.missing_id" (say "every bundled policy requires a non-empty @id annotation")

unfoldable pub duplicate_id : String → Diagnostic
duplicate_id id = error "policy.duplicate_id" (text "duplicate policy @id " ∷ debug id ∷ [])

-- The warning on an identifier that does not begin with the module's name and a dot.
unfoldable pub check_prefix : String → String → List Diagnostic
check_prefix name id =
    if starts_with id (name <> ".")
    then []
    else warning "policy.id_prefix" (
        text "policy @id "
        ∷ debug id
        ∷ text " should start with "
        ∷ debug name
        ∷ text " followed by '.'"
        ∷ [])
      ∷ []

-- The three vectors that the function pushes to.
pub record Claimed : Type 0 where
  pub module_policy_ids : List String
  pub all_policy_ids : List String
  pub diagnostics : List Diagnostic

abbrev pub push : List Diagnostic → Claimed → Claimed
push ds s = record s { diagnostics = s.diagnostics ++ ds }

module _ (m : ModuleRecord) (relative_path : String) where
  abbrev pub located : Diagnostic → Diagnostic
  located d = at_path relative_path (in_module m.name d)

  -- One round of the loop: a policy with its identifier, if it has one.
  unfoldable pub claim_policy : Policy → Option String → Claimed → Claimed
  unfolding missing_id duplicate_id check_prefix
  claim_policy policy none s = push (located missing_id ∷ []) s
  claim_policy policy (some id) s = record {
    module_policy_ids = s.module_policy_ids ++ (id ∷ []);
    all_policy_ids = set_insert id s.all_policy_ids;
    diagnostics =
        s.diagnostics
        ++ ((if contains id s.all_policy_ids then located (duplicate_id id) ∷ [] else [])
            ++ (map located (check_prefix m.name id)
                ++ map located (validate_policy_ownership policy id m)));
  }

  unfoldable pub claim_policies : List Policy → Claimed → Claimed
  unfolding claim_policy policy_id
  claim_policies [] s = s
  claim_policies (policy ∷ policies) s =
      claim_policies policies (claim_policy policy (policy_id policy) s)

  -- `validate_module_policies`
  unfoldable pub validate_module_policies : PolicySet → Claimed → Claimed
  unfolding claim_policies has_templates templates_unsupported
  validate_module_policies set s =
      claim_policies set.policies
        (push (if has_templates set then located templates_unsupported ∷ [] else []) s)
