-- ===== src/Base/Pigeonhole.antt =====
-- Distinct members of a list are no more than its members.
use Prim.Native.Nat.{suc, ◌≤◌}
use Prim.Native.String.{String}
use mathlib.Core.Path.{◌≡◌, refl, sym}
use mathlib.Core.Logic.{◌⊎◌, inl, inr}
use mathlib.Core.Bool.{true, false}
use mathlib.Core.List.{List, [], ◌∷◌}
use native.Mathlib.Omega.{arith}
use treetop_bundle.Base.Lists.{length, In, All, contains, In→contains}

-- No text is met twice.
abbrev pub Distinct : List String → Type 0
Distinct [] = Unit
Distinct (x ∷ xs) = (contains x xs ≡ false) × Distinct xs

-- A member taken out: the other members are among the rest.
without :
    (x : String) (ys : List String)
    → In x ys
    → (zs : List String) × (length ys ≡ suc (length zs))
      × ((a : String) → In a ys → (a ≡ x) ⊎ In a zs)
without x [] m = elim m [ ]
without x (y ∷ ys) (inl e) =
    (ys, refl, λ a m. elim m [ inl here ↦ inl (cc) | inr there ↦ inr there ])
without x (y ∷ ys) (inr m) =
    let (zs, e, rest) = without x ys m in
    (
      y ∷ zs,
      omega (arith, e),
      λ a m. elim m [
        | inl here ↦ inr (inl here)
        | inr there ↦ elim (rest a there) [ inl same ↦ inl same | inr later ↦ inr (inr later) ]
      ],
    )

contains-head : (x a : String) (xs : List String) → a ≡ x → contains x (a ∷ xs) ≡ false → ⊥
contains-head x a xs same fresh =
    let found : contains x (a ∷ xs) ≡ true = In→contains x (a ∷ xs) (inl (sym same)) in cc

contains-tail :
    (x a : String) (xs : List String) → contains x (a ∷ xs) ≡ false → contains x xs ≡ false
contains-tail x a xs fresh = ground (arith, fresh)

All-still_In :
    (x : String) (xs ys zs : List String)
    → contains x xs ≡ false
    → ((a : String) → In a ys → (a ≡ x) ⊎ In a zs)
    → All (λ a. In a ys) xs
    → All (λ a. In a zs) xs
All-still_In x [] ys zs fresh rest h = tt
All-still_In x (a ∷ xs) ys zs fresh rest h = (
  elim (rest a h.0) [ inl same ↦ absurd (contains-head x a xs same fresh) | inr later ↦ later ],
  All-still_In x xs ys zs (contains-tail x a xs fresh) rest h.1,
)

pub length-Distinct :
    (xs ys : List String) → Distinct xs → All (λ a. In a ys) xs → length xs ≤ length ys
length-Distinct [] ys distinct h = omega arith
length-Distinct (x ∷ xs) ys distinct h =
    let (zs, e, rest) = without x ys h.0 in
    omega (arith, e, length-Distinct xs zs distinct.1 (All-still_In x xs ys zs distinct.0 rest h.1))
