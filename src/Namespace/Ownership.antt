-- ===== src/Namespace/Ownership.antt =====
-- What `namespace_owns` decides: the root itself, and the names below it by whole segments.
use text.Mathlib.TextEquality.{starts_with_iff}
use text.Mathlib.TextPositions.{starts_with-append}
use treetop_bundle.Base.{
  String, ◌<>◌, ◌≡◌, ◌↔◌, ◌⊎◌, inl, inr, ◌∙◌, sym, ap, true, arith, eq_iff, starts_with, Bool-cases,
  Option-cases, strip_prefix, strip_prefix-append, strip_prefix-eq-some,
}
use treetop_bundle.Namespace.{namespace_owns}

-- `name` is the root, or the root followed by `::` and more.
abbrev pub Owns : String → String → Type 0
Owns root name = (name ≡ root) ⊎ ((rest : String) × (name ≡ root <> ("::" <> rest)))

owned_suffix : (s : String) → starts_with s "::" ≡ true → (r : String) × (s ≡ "::" <> r)
owned_suffix s h = let (r, e) = (starts_with_iff s "::").0 h in (r, sym e)

namespace_owns→Owns : (root name : String) → namespace_owns root name ≡ true → Owns root name
unfolding namespace_owns
namespace_owns→Owns root name h = elim (Option-cases (strip_prefix root name)) [
  | inl outside ↦ inl ((eq_iff name root).0 (ground (arith, outside)))
  | inr (suffix, e) ↦ elim (Bool-cases (starts_with suffix "::")) [
    | inl below ↦
        let (rest, e') = owned_suffix suffix below in
        inr (rest, strip_prefix-eq-some root name suffix e ∙ ap (λ s. root <> s) e')
    | inr beside ↦ inl ((eq_iff name root).0 (ground (arith, e, beside)))
  ]
]

namespace_owns-of_Owns : (root name : String) → Owns root name → namespace_owns root name ≡ true
unfolding namespace_owns
namespace_owns-of_Owns root name (inl e) = ground (arith, eq_iff name root)
namespace_owns-of_Owns root name (inr (rest, e)) =
    ground (arith, strip_prefix-append root ("::" <> rest), starts_with-append "::" rest)

-- A namespace owns its own name and every name below it by whole segments, and nothing else.
pub namespace_owns_iff : (root name : String) → (namespace_owns root name ≡ true) ↔ Owns root name
namespace_owns_iff root name = (namespace_owns→Owns root name, namespace_owns-of_Owns root name)
