-- ===== src/Validation/Distinct.antt =====
-- The policy identifiers of the modules of a bundle that compiles are distinct.
use treetop_bundle.Validation.Errors.{has_error-append}
use treetop_bundle.Validation.CompiledFiles.{Files-of_policies}
use treetop_bundle.Validation.Normalize.{normalize_text}
use treetop_bundle.Validation.Checks.{read_utf8}
use treetop_bundle.Validation.Grows.{Grows-aggregate}
use treetop_bundle.Error.{>>=-eq-ok, ok-injective, err, Result, ok}
use treetop_bundle.Manifest.Module.{input_path, ModuleManifest}
use treetop_bundle.Validation.Claims.{claim_policies-Claims}
use treetop_bundle.Diagnostic.{has_error}
use treetop_bundle.Validation.Compile.{compile_policies, parsed_policies, Compiling, Printing}
use treetop_bundle.Validation.Policy.{Policy, PolicySet}
use treetop_bundle.Labels.Rules.{Engine}
use treetop_bundle.Validation.ModulePolicies.{
  templates_unsupported, has_templates, push, located, check_prefix, policy_id,
  validate_module_policies, Claimed, claim_policies, claim_policy, duplicate_id,
}
use treetop_bundle.Validation.Cedar.{Cedar}
use treetop_bundle.Host.{Host}
use treetop_bundle.Validation.Ownership.{validate_policy_ownership, ModuleRecord}
use treetop_bundle.Base.{
  true, none, contains-set_insert, ◌∙◌, eq_iff, set_insert, arith, ◌||◌, ap, sym, ◌++◌, keep, subst,
  some, Option, if◌then◌else◌, false, ◌≢◌, ◌≡◌, Bool, All, AllPairs, contains, String, refl, [],
  ◌∷◌, List,
}
use mathlib.Core.List.{map, append_assoc, append-nil}

-- The identifiers that the modules claim, in order.
abbrev pub assigned : List ModuleRecord → List String
assigned [] = []
assigned (r ∷ rs) = r.policy_ids ++ assigned rs

-- The claimed identifiers are distinct, and they are the collected ones.
pub record AreDistinct (claimed collected : List String) : Type 0 where
  pub pairs : AllPairs (λ a b. a ≢ b) claimed
  pub same : (id : String) → contains id collected ≡ contains id claimed

contains-append :
    (id : String) (xs ys : List String)
    → contains id (xs ++ ys) ≡ (contains id xs || contains id ys)
contains-append id [] ys = refl
contains-append id (x ∷ xs) ys = ground (arith, contains-append id xs ys)

All-snoc :
    (P : String → Type 0) (xs : List String) (x : String) → All P xs → P x → All P (xs ++ (x ∷ []))
All-snoc P [] x h p = (p, tt)
All-snoc P (y ∷ xs) x h p = (h.0, All-snoc P xs x h.1 p)

AllPairs-snoc :
    (xs : List String) (x : String)
    → AllPairs (λ a b. a ≢ b) xs
    → contains x xs ≡ false
    → AllPairs (λ a b. a ≢ b) (xs ++ (x ∷ []))
AllPairs-snoc [] x h fresh = (tt, tt)
AllPairs-snoc (y ∷ xs) x h fresh = (
  All-snoc _ xs x h.0 (λ e. absurd (ground (arith, fresh, (eq_iff x y).1 (sym e)))),
  AllPairs-snoc xs x h.1 (ground (arith, fresh)),
)

AreDistinct-snoc :
    (claimed collected : List String) (id : String)
    → AreDistinct claimed collected
    → contains id collected ≡ false
    → AreDistinct (claimed ++ (id ∷ [])) (set_insert id collected)
AreDistinct-snoc claimed collected id d fresh = record {
  pairs = AllPairs-snoc claimed id d.pairs (sym (d.same id) ∙ fresh);
  same = λ j.
      ground
        (arith, contains-set_insert j id collected, contains-append j claimed (id ∷ []), d.same j);
}

pub assigned-append :
    (rs : List ModuleRecord) (r : ModuleRecord)
    → assigned (rs ++ (r ∷ [])) ≡ assigned rs ++ r.policy_ids
assigned-append [] r = append-nil r.policy_ids
assigned-append (x ∷ rs) r =
    ap (λ l. x.policy_ids ++ l) (assigned-append rs r)
    ∙ sym (append_assoc x.policy_ids (assigned rs) r.policy_ids)

-- What is claimed is distinct, after the identifiers of earlier modules.
abbrev Claiming : List String → Claimed → Type 0
Claiming base s = AreDistinct (base ++ s.module_policy_ids) s.all_policy_ids

module _ (m : ModuleRecord) (relative : String) (base : List String) where
  fresh-of_quiet :
      (b : Bool) (id : String)
      → has_error (if b then located m relative (duplicate_id id) ∷ [] else []) ≡ false
      → b ≡ false
  unfolding duplicate_id
  fresh-of_quiet true id h = absurd cc
  fresh-of_quiet false id h = refl

  Claiming-claim_policy :
      (policy : Policy) (o : Option String) (s : Claimed)
      → has_error (claim_policy m relative policy o s).diagnostics ≡ false
      → Claiming base s
      → Claiming base (claim_policy m relative policy o s)
  unfolding claim_policy
  Claiming-claim_policy policy none s h d = d
  Claiming-claim_policy policy (some id) s h d =
      let twice =
        if contains id s.all_policy_ids then located m relative (duplicate_id id) ∷ [] else [] in
      let others =
        map (located m relative) (check_prefix m.name id)
        ++ map (located m relative) (validate_policy_ownership policy id m) in
      let outer = has_error-append s.diagnostics (twice ++ others) in
      let inner = has_error-append twice others in
      let fresh =
        fresh-of_quiet (contains id s.all_policy_ids) id (ground (arith, h, outer, inner)) in
      subst (λ l. AreDistinct l (set_insert id s.all_policy_ids))
        (append_assoc base s.module_policy_ids (id ∷ []))
        (AreDistinct-snoc (base ++ s.module_policy_ids) s.all_policy_ids id d fresh)

  pub Claiming-claim_policies :
      (policies : List Policy) (s : Claimed)
      → has_error (claim_policies m relative policies s).diagnostics ≡ false
      → Claiming base s
      → Claiming base (claim_policies m relative policies s)
  unfolding claim_policies
  Claiming-claim_policies [] s h d = d
  Claiming-claim_policies (policy ∷ policies) s h d =
      let next = claim_policy m relative policy (policy_id policy) s in
      let loop = claim_policies-Claims m relative policies next h in
      Claiming-claim_policies policies next h
        (Claiming-claim_policy policy (policy_id policy) s loop.quiet d)

  Claiming-module_policies :
      (set : PolicySet) (s : Claimed)
      → has_error (validate_module_policies m relative set s).diagnostics ≡ false
      → Claiming base s
      → Claiming base (validate_module_policies m relative set s)
  unfolding validate_module_policies
  Claiming-module_policies set s h d =
      Claiming-claim_policies set.policies
        (push (if has_templates set then located m relative templates_unsupported ∷ [] else []) s) h
        d

module _ (host : Host) (C : Cedar) (E : Engine) (P : Printing) where
  -- The same of the state of the loop over the files of a module.
  abbrev pub Collecting : List String → Compiling E × List String → Type 0
  Collecting base (s, ids) = AreDistinct (base ++ ids) s.policy_ids

  Collecting-parsed :
      (m : ModuleManifest) (r : ModuleRecord) (relative normalized : String)
      (parsed : Result String PolicySet) (s : Compiling E × List String) (base : List String)
      → has_error (parsed_policies host C E P m r relative normalized parsed s).0.diagnostics
        ≡ false
      → Collecting base s
      → Collecting base (parsed_policies host C E P m r relative normalized parsed s)
  unfolding parsed_policies
  Collecting-parsed m r relative normalized (err e) (s, ids) base h d = d
  Collecting-parsed m r relative normalized (ok set) (s, ids) base h d =
      let before : Claimed = record {
        module_policy_ids = ids;
        all_policy_ids = s.policy_ids;
        diagnostics = s.diagnostics;
      } in
      let c = validate_module_policies r relative set before in
      let g =
        Grows-aggregate host C E P (keep (λ p. p.is_static) set.policies)
          (record s { policy_ids = c.all_policy_ids; diagnostics = c.diagnostics }) in
      subst (λ l. AreDistinct (base ++ c.module_policy_ids) l) (sym g.ids)
        (Claiming-module_policies r relative base set before (g.quiet h) d)

  pub Collecting-policies :
      (m : ModuleManifest) (r : ModuleRecord) (files : List String)
      (s t : Compiling E × List String) (base : List String)
      → compile_policies host C E P m r files s ≡ ok t
      → has_error t.0.diagnostics ≡ false
      → Collecting base s
      → Collecting base t
  unfolding compile_policies
  Collecting-policies m r [] s t base h q d = subst (λ x. Collecting base x) (ok-injective h) d
  Collecting-policies m r (relative ∷ rest) s t base h q d =
      let (source, _, h1) = >>=-eq-ok (read_utf8 host (input_path m relative)) _ h in
      let normalized = normalize_text source in
      let parsed = C.parse_policies normalized in
      let next = parsed_policies host C E P m r relative normalized parsed s in
      let later = Files-of_policies host C E P m r rest next t h1 in
      Collecting-policies m r rest next t base h1 q
        (Collecting-parsed m r relative normalized parsed s base (later.quiet q).0 d)

  -- After the policy files of a module, from the state before them.
  pub AreDistinct-policies :
      (m : ModuleManifest) (r : ModuleRecord) (files : List String) (s : Compiling E)
      (t : Compiling E × List String) (modules : List ModuleRecord)
      → compile_policies host C E P m r files (s, []) ≡ ok t
      → has_error t.0.diagnostics ≡ false
      → AreDistinct (assigned modules) s.policy_ids
      → AreDistinct (assigned (modules ++ (record r { policy_ids = t.1 } ∷ []))) t.0.policy_ids
  AreDistinct-policies m r files s t modules h q d =
      let start : Collecting (assigned modules) (s, []) =
        subst (λ l. AreDistinct l s.policy_ids) (sym (append-nil (assigned modules))) d in
      subst (λ l. AreDistinct l t.0.policy_ids)
        (sym (assigned-append modules (record r { policy_ids = t.1 })))
        (Collecting-policies m r files (s, []) t (assigned modules) h q start)
