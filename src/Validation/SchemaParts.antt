-- ===== src/Validation/SchemaParts.antt =====
-- The parts of an aggregate schema: who may declare a namespace, and how fragments are merged.
use treetop_bundle.Base.{
  String, Bool, ◌||◌, Option, none, some, List, [], ◌∷◌, ◌++◌, any, ◌==◌, if◌then◌else◌,
}
use treetop_bundle.Diagnostic.{Diagnostic, text, debug, error, in_module, at_path}
use treetop_bundle.Json.{Json, object, Fields, end, field, get_field, insert_field, as_object}
use treetop_bundle.Namespace.{namespace_owns}
use treetop_bundle.Validation.Ownership.{ModuleRecord}

-- `Map::keys`
unfoldable pub keys : Fields → List String
keys end = []
keys (field k v rest) = k ∷ keys rest

unfoldable pub object_keys : Option Fields → List String
unfolding keys
object_keys none = []
object_keys (some fields) = keys fields

abbrev pub each : {A : Type 0} → (A → List Diagnostic) → List A → List Diagnostic
each f [] = []
each f (x ∷ xs) = f x ++ each f xs

-- `validate_schema_ownership`: the diagnostics that it pushes.
unfoldable pub validate_schema_ownership : Json → String → String → String → List Diagnostic
unfolding object_keys
validate_schema_ownership schema_json module_name namespace relative_path =
    each
      (λ declared.
        if namespace_owns namespace declared
        then []
        else at_path relative_path (
            in_module module_name (
              error "schema.namespace_violation" (
                text "schema namespace "
                ∷ debug declared
                ∷ text " is outside module namespace "
                ∷ debug namespace
                ∷ [])))
          ∷ [])
      (object_keys (as_object schema_json))

-- `validate_aggregate_schema_ownership`: the diagnostics that it pushes.
unfoldable pub validate_aggregate_schema_ownership : Json → List ModuleRecord → List Diagnostic
unfolding object_keys
validate_aggregate_schema_ownership schema_json modules =
    each
      (λ namespace.
        if any (λ (m : ModuleRecord). namespace_owns m.namespace namespace) modules
        then []
        else error "schema.namespace_violation"
            (text "schema namespace " ∷ debug namespace ∷ text " is not owned by any module" ∷ [])
          ∷ [])
      (object_keys (as_object schema_json))

-- A map that a merge writes to, with the diagnostics that it pushes.
pub record Merged : Type 0 where
  pub fields : Fields
  pub diagnostics : List Diagnostic

-- `entry(key).or_insert_with(|| Value::Object(Map::new()))`
unfoldable pub entry_or_object : String → Fields → Json
entry_or_object k fields = elim (get_field k fields) [ none ↦ object end | some v ↦ v ]

-- `Value` equality is that of the JSON library.
module _ (same_json : Json → Json → Bool) (module_name relative_path : String) where
  abbrev pub placed : Diagnostic → Diagnostic
  placed d = at_path relative_path (in_module module_name d)

  unfoldable pub duplicate_declaration : String → String → String → Diagnostic
  duplicate_declaration kind namespace name = placed (
      error "schema.duplicate_declaration" (
        text "duplicate "
        ∷ text kind
        ∷ text " declaration "
        ∷ text namespace
        ∷ text "::"
        ∷ text name
        ∷ []))

  -- The loop over the declarations of one kind: a later one replaces an earlier one.
  unfoldable pub merge_declarations : String → String → Fields → Merged → Merged
  unfolding duplicate_declaration
  merge_declarations kind namespace end s = s
  merge_declarations kind namespace (field name declaration rest) s =
      merge_declarations kind namespace rest (record {
        fields = insert_field name declaration s.fields;
        diagnostics = s.diagnostics ++ elim (get_field name s.fields) [
          | none ↦ []
          | some old ↦ duplicate_declaration kind namespace name ∷ []
        ];
      })

  -- Whether the field holds declarations.
  unfoldable pub is_declarations : String → Bool
  is_declarations kind = kind == "entityTypes" || (kind == "actions" || kind == "commonTypes")

  -- A field with declarations, where the target and the fragment hold objects.
  unfoldable pub merge_kind : String → String → Option Fields → Option Fields → Merged → Merged
  unfolding merge_declarations
  merge_kind kind namespace (some target) (some declarations) s =
      let inner =
        merge_declarations kind namespace declarations
          (record { fields = target; diagnostics = s.diagnostics }) in
      record {
        fields = insert_field kind (object inner.fields) s.fields;
        diagnostics = inner.diagnostics;
      }
  merge_kind kind namespace (some target) none s = record s {
    fields = insert_field kind (object target) s.fields;
  }
  merge_kind kind namespace none declarations s = s

  -- Any other field: it must agree with the one that is there.
  unfoldable pub merge_metadata : String → String → Json → Option Json → Merged → Merged
  merge_metadata kind namespace value (some existing) s =
      if same_json existing value then s else record s {
        diagnostics =
            s.diagnostics
            ++ (placed (
                  error "schema.duplicate_metadata" (
                    text "conflicting schema namespace field "
                    ∷ text namespace
                    ∷ text "."
                    ∷ text kind
                    ∷ []))
                ∷ []);
      }
  merge_metadata kind namespace value none s = record s {
    fields = insert_field kind value s.fields;
  }

  -- The loop over the fields of one namespace.
  unfoldable pub merge_fields : String → Fields → Merged → Merged
  unfolding merge_kind merge_metadata is_declarations entry_or_object
  merge_fields namespace end s = s
  merge_fields namespace (field kind value rest) s = merge_fields namespace rest (
      if is_declarations kind
      then merge_kind kind namespace (as_object (entry_or_object kind s.fields)) (as_object value) s
      else merge_metadata kind namespace value (get_field kind s.fields) s)

  unfoldable pub merge_definition : String → Option Fields → Option Fields → Merged → Merged
  unfolding merge_fields
  merge_definition namespace (some target) (some fields) s =
      let inner =
        merge_fields namespace fields (record { fields = target; diagnostics = s.diagnostics }) in
      record {
        fields = insert_field namespace (object inner.fields) s.fields;
        diagnostics = inner.diagnostics;
      }
  merge_definition namespace (some target) none s = record s {
    fields = insert_field namespace (object target) s.fields;
  }
  merge_definition namespace none fields s = s

  -- The loop over the namespaces of the fragment.
  unfoldable pub merge_namespaces : Fields → Merged → Merged
  unfolding merge_definition entry_or_object
  merge_namespaces end s = s
  merge_namespaces (field namespace definition rest) s = merge_namespaces rest (
      merge_definition namespace (as_object (entry_or_object namespace s.fields))
        (as_object definition) s)

  unfoldable pub merge_objects : Option Fields → Option Fields → Json → Json × List Diagnostic
  unfolding merge_namespaces
  merge_objects (some target) (some fragment) whole =
      let s = merge_namespaces fragment (record { fields = target; diagnostics = [] }) in
      (object s.fields, s.diagnostics)
  merge_objects (some target) none whole = (whole, [])
  merge_objects none fragment whole = (whole, [])

  -- `merge_schema_fragment`: the new target and the diagnostics that it pushes.
  unfoldable pub merge_schema_fragment : Json → Json → Json × List Diagnostic
  unfolding merge_objects
  merge_schema_fragment target fragment =
      merge_objects (as_object target) (as_object fragment) target
