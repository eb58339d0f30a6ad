-- ===== src/Manifest/Accepted.antt =====
-- What a module manifest that `ModuleManifest::from_path` returns satisfies.
use treetop_bundle.Base.{
  ◌∙◌, some, sym, String, ◌≡◌, ◌≢◌, ◌↔◌, inl, inr, refl, ap, true, false, List, [], ◌∷◌, ◌++◌,
  arith, any, All, AllPairs, All-of_In, In, In→contains, is_blank, is_empty_text, contains,
  append-eq-nil, when-eq-nil, unless-eq-nil, nat_beq→eq, List-cases, subst, eq_iff, Bool-cases,
}
use treetop_bundle.Diagnostic.{say}
use treetop_bundle.Manifest.Module.{read_manifest}
use treetop_bundle.Error.{
  validation, map_err, manifest, io, Result, ok, err, >>=-eq-ok, ok-injective, map_err-eq-ok,
}
use treetop_bundle.FilePath.{parent, is_absolute, components, escapes, path_starts_with, join}
use treetop_bundle.Host.{Host, RawModuleManifest}
use treetop_bundle.Manifest.Module.{
  ModuleManifest, supported_version, has_glob, is_bad_input, validate_namespace, check_canonical,
  validate_input_path, check_imports, check_inputs, check_raw_module, accept_module,
  module_from_path, parent_or_error,
}

abbrev pub Distinct : List String → Type 0
Distinct = AllPairs (λ a b. a ≢ b)

abbrev pub Absent : List String → List String → Type 0
Absent met ids = All (λ id. contains id met ≡ false) ids

pub Absent-cons :
    (x : String) (met ids : List String)
    → Absent (x ∷ met) ids
    → All (λ id. x ≢ id) ids × Absent met ids
Absent-cons x met [] h = (tt, tt)
Absent-cons x met (id ∷ ids) h =
    let (a, b) = Absent-cons x met ids h.1 in
    let first : contains id (x ∷ met) ≡ false = h.0 in
    (((λ e. ground (arith, eq_iff id x)), a), (ground arith, b))

module _ (host : Host) where
  -- A name that is not blank and that Cedar reads as an entity type name.
  pub record IsNamespace (value : String) : Type 0 where
    pub not_blank : is_blank value ≡ false
    pub type_name : host.is_type_name value ≡ true

  -- A relative path without `..` and globs, that resolves to a file below the directory.
  pub record IsSafeInput (directory input : String) : Type 0 where
    pub not_empty : input ≢ ""
    pub relative : is_absolute input ≡ false
    pub inside : any escapes (components input) ≡ false
    pub explicit : has_glob input ≡ false
    pub canonical : String
    pub resolves : host.canonicalize (join directory input) ≡ ok canonical
    pub below : path_starts_with canonical directory ≡ true
    pub is_file : host.is_file canonical ≡ true

  validate_namespace-eq-nil :
      (label value : String) → validate_namespace host label value ≡ [] → IsNamespace value
  unfolding validate_namespace
  validate_namespace-eq-nil label value h = ground arith

  is_bad_input-eq-false :
      (input : String)
      → is_bad_input input ≡ false
      → (input ≢ "")
        × (is_absolute input ≡ false)
        × (any escapes (components input) ≡ false)
        × (has_glob input ≡ false)
  unfolding is_bad_input
  is_bad_input-eq-false input h =
      ((λ e. ground (arith, ap is_empty_text e)), ground arith, ground arith, ground arith)

  is_empty_text-eq-false : (s : String) → s ≢ "" → is_empty_text s ≡ false
  is_empty_text-eq-false String.[] h = absurd (h refl)
  is_empty_text-eq-false (String.◌∷◌ c s) h = refl

  validate_input_path-eq-nil :
      (directory input : String)
      → validate_input_path host directory input ≡ []
      → IsSafeInput directory input
  unfolding validate_input_path
  validate_input_path-eq-nil directory input h = elim (Bool-cases (is_bad_input input)) [
    | inl bad ↦ absurd (ground arith)
    | inr good ↦
        let (e, a, b, g) = is_bad_input-eq-false input good in
        let found : check_canonical host directory input (host.canonicalize (join directory input))
            ≡ [] =
          ground arith in
        resolved e a b g (host.canonicalize (join directory input)) refl found
  ]
    where
      resolved :
          input ≢ ""
          → is_absolute input ≡ false
          → any escapes (components input) ≡ false
          → has_glob input ≡ false
          → (r : Result String String) → host.canonicalize (join directory input) ≡ r
          → check_canonical host directory input r ≡ []
          → IsSafeInput directory input
      resolved e a b g (ok canonical) eq found = record {
        not_empty = e;
        relative = a;
        inside = b;
        explicit = g;
        canonical = canonical;
        resolves = eq;
        below = ground arith;
        is_file = ground arith;
      }
      resolved e a b g (err message) eq found = cc

  eq_nil-of_IsSafeInput :
      (directory input : String)
      → IsSafeInput directory input
      → validate_input_path host directory input ≡ []
  unfolding validate_input_path
  eq_nil-of_IsSafeInput directory input s =
      let empty = is_empty_text-eq-false input s.not_empty in
      rw (s.resolves) (ground (arith, empty, s.relative, s.inside, s.explicit, s.below, s.is_file))

  -- `validate_input_path` accepts exactly the safe inputs: relative and explicit paths, without
  -- `..`, whose canonical form is a file below the module's directory.
  pub validate_input_path_iff :
      (directory input : String)
      → (validate_input_path host directory input ≡ []) ↔ IsSafeInput directory input
  validate_input_path_iff directory input =
      (validate_input_path-eq-nil directory input, eq_nil-of_IsSafeInput directory input)

  check_imports-eq-nil :
      (seen imports : List String)
      → check_imports host seen imports ≡ []
      → All IsNamespace imports
        × Distinct imports
        × ((s : String) → In s seen → contains s imports ≡ false)
  unfolding check_imports
  check_imports-eq-nil seen [] h = (tt, tt, λ s m. refl)
  check_imports-eq-nil seen (i ∷ is) h =
      let (valid, rest) = append-eq-nil _ _ h in
      let (new, more) = append-eq-nil _ _ rest in
      let (names, distinct, fresh) = check_imports-eq-nil (i ∷ seen) is more in
      (
        (validate_namespace-eq-nil "module import" i valid, names),
        (
          All-of_In (λ b. i ≢ b) is
              (λ b m e. ground (arith, fresh i (inl refl), In→contains b is m)),
          distinct,
        ),
        λ s m. ground (arith, fresh s (inr m), eq_iff s i, In→contains s seen m),
      )

  check_inputs-eq-nil :
      (directory : String) (inputs : List String)
      → check_inputs host directory inputs ≡ []
      → All (IsSafeInput directory) inputs
  unfolding check_inputs
  check_inputs-eq-nil directory [] h = tt
  check_inputs-eq-nil directory (i ∷ is) h =
      let (a, b) = append-eq-nil _ _ h in
      (validate_input_path-eq-nil directory i a, check_inputs-eq-nil directory is b)

  -- A module manifest whose every check passed.
  pub record IsAccepted (m : ModuleManifest) : Type 0 where
    pub version : m.format_version ≡ supported_version
    pub named : is_blank m.name ≡ false
    pub namespace : IsNamespace m.namespace
    pub imports : All IsNamespace m.imports
    pub distinct : Distinct m.imports
    pub no_self_import : contains m.namespace m.imports ≡ false
    pub inputs : All (IsSafeInput m.directory) (m.policies ++ (m.schemas ++ m.labels))

  -- The manifest that is made of the raw one.
  abbrev made : String → String → RawModuleManifest → ModuleManifest
  made path directory raw = record {
    format_version = raw.format_version;
    name = raw.name;
    namespace = raw.namespace;
    imports = raw.imports;
    policies = raw.policies;
    schemas = raw.schemas;
    labels = raw.labels;
    path = path;
    directory = directory;
  }

  made-IsAccepted :
      (path directory : String) (raw : RawModuleManifest)
      → check_raw_module host directory raw ≡ []
      → IsAccepted (made path directory raw)
  unfolding check_raw_module
  made-IsAccepted path directory raw h =
      let (version, h1) = append-eq-nil _ _ h in
      let (named, h2) = append-eq-nil _ _ h1 in
      let (namespace, h3) = append-eq-nil _ _ h2 in
      let (imports, h4) = append-eq-nil _ _ h3 in
      let (self, inputs) = append-eq-nil _ _ h4 in
      let (names, distinct, _) = check_imports-eq-nil [] raw.imports imports in
      record {
        version = nat_beq→eq _ _ (unless-eq-nil _ _ version);
        named = when-eq-nil _ _ named;
        namespace = validate_namespace-eq-nil "module namespace" raw.namespace namespace;
        imports = names;
        distinct = distinct;
        no_self_import = when-eq-nil _ _ self;
        inputs = check_inputs-eq-nil directory _ inputs;
      }

  accept_module-eq-ok :
      (requested path directory : String) (raw : RawModuleManifest) (m : ModuleManifest)
      → accept_module host requested path directory raw ≡ ok m
      → IsAccepted m × (m.path ≡ path) × (m.directory ≡ directory)
  unfolding accept_module
  accept_module-eq-ok requested path directory raw m h =
      elim (List-cases (check_raw_module host directory raw)) [
        | inl clean ↦
            let e : made path directory raw ≡ m = ok-injective (rw clean at h) in
            (
              subst IsAccepted e (made-IsAccepted path directory raw clean),
              ap (λ x. x.path) (sym e),
              ap (λ x. x.directory) (sym e),
            )
        | inr (d, ds, bad) ↦ absurd (ground (arith, bad))
      ]

  pub parent_or_error-eq-ok :
      (message path directory : String)
      → parent_or_error host message path ≡ ok directory
      → parent path ≡ some directory
  unfolding parent_or_error
  parent_or_error-eq-ok message path directory h = ground arith

  -- A manifest that `ModuleManifest::from_path` returns has the supported version, a name, a valid
  -- namespace, valid, distinct imports other than itself, and only safe input paths; its directory
  -- is the parent of the canonical form of the requested path.
  pub module_from_path-IsAccepted :
      (requested : String) (m : ModuleManifest)
      → module_from_path host requested ≡ ok m
      → IsAccepted m
        × (host.canonicalize requested ≡ ok m.path)
        × (parent m.path ≡ some m.directory)
  unfolding module_from_path
  module_from_path-IsAccepted requested m h =
      let (source, _, h1) = >>=-eq-ok (read_manifest host requested) _ h in
      let (raw, _, h2) =
        >>=-eq-ok (map_err (λ e. manifest requested (say e)) (host.module_from_toml source)) _ h1 in
      let (path, found, h3) =
        >>=-eq-ok (map_err (λ e. io requested (say e)) (host.canonicalize requested)) _ h2 in
      let (directory, below, h4) =
        >>=-eq-ok (parent_or_error host "module manifest must have a parent directory" path) _ h3 in
      let (accepted, same_path, same_directory) =
        accept_module-eq-ok requested path directory raw m h4 in
      (
        accepted,
        map_err-eq-ok _ (host.canonicalize requested) found ∙ ap ok (sym same_path),
        ap parent same_path
            ∙ parent_or_error-eq-ok _ path directory below
            ∙ ap some (sym same_directory),
      )

  -- A module manifest is never refused without a diagnostic.
  pub module_from_path-ne :
      (requested : String) → module_from_path host requested ≢ err (validation [])
  unfolding module_from_path read_manifest parent_or_error accept_module
  module_from_path-ne requested h = ground (arith, h)
