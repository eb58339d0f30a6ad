-- ===== src/Archive/Consistent.antt =====
-- What a manifest that `validate_manifest` accepts satisfies.
use treetop_bundle.Base.{
  All-map, String, ◌≡◌, ◌≢◌, sym, ap, subst, true, false, not, ◌||◌, Option, none, some, List, [],
  ◌∷◌, arith, map, All, contains, is_empty, is_blank, all_windows, nat_beq, nat_beq→eq, str_ltb,
  eq_iff, IsAscending,
}
use treetop_bundle.Error.{ok, >>=-eq-ok, refuse_if, refuse_if-eq-ok, ok-injective}
use treetop_bundle.Host.{Host}
use treetop_bundle.Manifest.Module.{supported_version}
use treetop_bundle.Manifest.Accepted.{IsNamespace, Distinct, Absent, Absent-cons}
use treetop_bundle.Namespace.{any_overlap}
use treetop_bundle.Validation.Ownership.{ModuleRecord}
use treetop_bundle.Validation.ArchiveParts.{same_set}
use treetop_bundle.Archive.Manifest.{
  ArchiveManifest, Seen, bad_imports, assign_ids, assigned_or_error, check_record, check_records,
  is_foreign, validate_manifest,
}
use treetop_bundle.Validation.SameSet.{same_set-contains}
use treetop_bundle.Archive.Assigned.{
  all_assigned, All-append, Distinct-append, assign_ids-eq-some, contains-append,
}

module _ (host : Host) where
  -- A module's entry, among those with the selected namespaces.
  pub record IsRecord (selected : List String) (m : ModuleRecord) : Type 0 where
    pub named : is_blank m.name ≡ false
    pub namespace : IsNamespace host m.namespace
    pub resolved : All (λ import. contains import selected ≡ true) m.imports
    pub not_self : All (λ import. import ≢ m.namespace) m.imports
    pub distinct : Distinct m.imports

  bad_imports-eq-false :
      (selected : List String) (namespace : String) (seen imports : List String)
      → bad_imports selected namespace seen imports ≡ false
      → All (λ import. contains import selected ≡ true) imports
        × All (λ import. import ≢ namespace) imports
        × Distinct imports
        × Absent seen imports
  unfolding bad_imports
  bad_imports-eq-false selected namespace seen [] h = (tt, tt, tt, tt)
  bad_imports-eq-false selected namespace seen (import ∷ imports) h =
      let (resolved, others, distinct, absent) =
        bad_imports-eq-false selected namespace (import ∷ seen) imports (ground arith) in
      let (apart, rest) = Absent-cons import seen imports absent in
      (
        (ground arith, resolved),
        ((λ e. ground (arith, eq_iff import namespace)), others),
        (apart, distinct),
        (ground arith, rest),
      )

  check_record-eq-ok :
      (selected : List String) (m : ModuleRecord) (s t : Seen)
      → check_record host selected m s ≡ ok t
      → IsRecord selected m
        × Distinct m.policy_ids
        × Absent s.assigned_policy_ids m.policy_ids
        × ((p : String)
            → contains p t.assigned_policy_ids
              ≡ (contains p m.policy_ids || contains p s.assigned_policy_ids))
  unfolding check_record assigned_or_error
  check_record-eq-ok selected m s t h =
      let bad = is_blank m.name || (is_blank m.namespace || not (host.is_type_name m.namespace)) in
      let (_, valid, h1) = >>=-eq-ok (refuse_if bad _) _ h in
      let (_, _, h2) = >>=-eq-ok (refuse_if (contains m.name s.module_names) _) _ h1 in
      let (_, imports, h3) =
        >>=-eq-ok (refuse_if (bad_imports selected m.namespace [] m.imports) _) _ h2 in
      let (assigned, ids, h4) =
        >>=-eq-ok (assigned_or_error (assign_ids s.assigned_policy_ids m.policy_ids)) _ h3 in
      let good : bad ≡ false = refuse_if-eq-ok _ _ valid in
      let (resolved, others, distinct, _) =
        bad_imports-eq-false selected m.namespace [] m.imports (refuse_if-eq-ok _ _ imports) in
      let (once, absent, members) =
        assign_ids-eq-some s.assigned_policy_ids m.policy_ids assigned
          (assigned_or_error-eq-ok _ assigned ids) in
      (
        record {
          named = ground arith;
          namespace = record { not_blank = ground arith; type_name = ground arith };
          resolved = resolved;
          not_self = others;
          distinct = distinct;
        },
        once,
        absent,
        λ p.
            subst
              (λ (u : Seen).
                contains p u.assigned_policy_ids
                ≡ (contains p m.policy_ids || contains p s.assigned_policy_ids))
              (ok-injective h4) (members p),
      )
    where
      assigned_or_error-eq-ok :
          (r : Option (List String)) (assigned : List String)
          → assigned_or_error r ≡ ok assigned
          → r ≡ some assigned
      assigned_or_error-eq-ok none assigned e = cc
      assigned_or_error-eq-ok (some a) assigned e = ap some (ok-injective e)

  check_records-eq-ok :
      (selected : List String) (modules : List ModuleRecord) (s t : Seen)
      → check_records host selected modules s ≡ ok t
      → All (IsRecord selected) modules
        × Distinct (all_assigned modules)
        × Absent s.assigned_policy_ids (all_assigned modules)
        × ((p : String)
            → contains p t.assigned_policy_ids
              ≡ (contains p (all_assigned modules) || contains p s.assigned_policy_ids))
  unfolding check_records
  check_records-eq-ok selected [] s t h =
      (tt, tt, tt, λ p. ap (λ (u : Seen). contains p u.assigned_policy_ids) (sym (ok-injective h)))
  check_records-eq-ok selected (m ∷ modules) s t h =
      let (u, first, rest) = >>=-eq-ok (check_record host selected m s) _ h in
      let (here, once, absent, members) = check_record-eq-ok selected m s u first in
      let (there, distinct, later, all_members) = check_records-eq-ok selected modules u t rest in
      (
        (here, there),
        Distinct-append m.policy_ids (all_assigned modules) once distinct (
            All-map _ _ (all_assigned modules) (λ id gone. ground (arith, members id, gone)) later),
        All-append _ m.policy_ids (all_assigned modules) absent (
            All-map _ _ (all_assigned modules) (λ id gone. ground (arith, members id, gone)) later),
        λ p. ground (
          arith,
          members p,
          all_members p,
          contains-append p m.policy_ids (all_assigned modules),
        ),
      )

  -- A manifest that is consistent in itself.
  pub record IsConsistent (m : ArchiveManifest) : Type 0 where
    pub version : m.format_version ≡ supported_version
    pub named : is_blank m.name ≡ false
    pub own_generator : is_foreign host m.generator ≡ false
    pub some_module : is_empty m.modules ≡ false
    pub names_ascend : IsAscending (map (λ r. r.name) m.modules)
    pub ids_ascend : IsAscending m.policy_ids
    pub records : All (IsRecord (map (λ r. r.namespace) m.modules)) m.modules
    pub assigned_once : Distinct (all_assigned m.modules)
    pub assigned_all : (p : String) → contains p (all_assigned m.modules) ≡ contains p m.policy_ids
    pub no_neighbours : any_overlap (map (λ r. r.namespace) m.modules) ≡ false

  -- A manifest that `validate_manifest` accepts has the supported version and generator, modules
  -- and policy identifiers in ascending order, valid namespaces, imports that resolve to other
  -- selected modules, and every policy identifier of the manifest assigned to exactly one module.
  pub validate_manifest_accepted :
      (m : ArchiveManifest) → validate_manifest host m ≡ ok tt → IsConsistent m
  unfolding validate_manifest
  validate_manifest_accepted m h =
      let (_, version, h1) =
        >>=-eq-ok (refuse_if (not (nat_beq m.format_version supported_version)) _) _ h in
      let (_, name, h2) = >>=-eq-ok (refuse_if (is_blank m.name) _) _ h1 in
      let (_, own, h3) = >>=-eq-ok (refuse_if (is_foreign host m.generator) _) _ h2 in
      let (_, any, h4) = >>=-eq-ok (refuse_if (is_empty m.modules) _) _ h3 in
      let (_, names, h5) =
        >>=-eq-ok (refuse_if (not (all_windows str_ltb (map (λ r. r.name) m.modules))) _) _ h4 in
      let (_, ids, h6) = >>=-eq-ok (refuse_if (not (all_windows str_ltb m.policy_ids)) _) _ h5 in
      let namespaces = map (λ r. r.namespace) m.modules in
      let (s, loop, h7) = >>=-eq-ok (check_records host namespaces m.modules _) _ h6 in
      let (_, apart, same) = >>=-eq-ok (refuse_if (any_overlap namespaces) _) _ h7 in
      let (records, once, _, members) = check_records-eq-ok namespaces m.modules _ s loop in
      let v : not (nat_beq m.format_version supported_version) ≡ false =
        refuse_if-eq-ok _ _ version in
      let n : not (all_windows str_ltb (map (λ r. r.name) m.modules)) ≡ false =
        refuse_if-eq-ok _ _ names in
      let i : not (all_windows str_ltb m.policy_ids) ≡ false = refuse_if-eq-ok _ _ ids in
      let e : not (same_set s.assigned_policy_ids m.policy_ids) ≡ false =
        refuse_if-eq-ok _ _ same in
      record {
        version = nat_beq→eq m.format_version supported_version (ground arith);
        named = refuse_if-eq-ok _ _ name;
        own_generator = refuse_if-eq-ok _ _ own;
        some_module = refuse_if-eq-ok _ _ any;
        names_ascend = ground arith;
        ids_ascend = ground arith;
        records = records;
        assigned_once = once;
        assigned_all = λ p. ground (
          arith,
          members p,
          same_set-contains s.assigned_policy_ids m.policy_ids (ground arith) p,
        );
        no_neighbours = refuse_if-eq-ok _ _ apart;
      }
