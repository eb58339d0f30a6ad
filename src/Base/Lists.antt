-- ===== src/Base/Lists.antt =====
-- Lists: native lengths, predicates by recursion, and the loops that the program writes as
-- iterator chains.
use Prim.Native.Nat.{ℕ, suc}
use Prim.Native.String.{String}
use mathlib.Core.Path.{◌≡◌, refl, sym, subst, ap}
use mathlib.Core.Logic.{◌⊎◌, inl, inr, ◌↔◌}
use mathlib.Core.Bool.{Bool, true, false, not, ◌&&◌, ◌||◌}
use mathlib.Core.Option.{Option, none, some}
use mathlib.Core.List.{List, [], ◌∷◌, ◌++◌, map}
use native.Mathlib.Omega.{arith}
use text.Mathlib.Text.{◌==◌}
use text.Mathlib.TextEquality.{eq_iff}
use treetop_bundle.Base.Tests.{nat_beq, if◌then◌else◌, Bool-cases}

module _ {ℓ} {A : Type ℓ} where
  abbrev pub length : List A → ℕ
  length [] = 0
  length (x ∷ xs) = suc (length xs)

  abbrev pub get_elem? : List A → ℕ → Option A
  get_elem? [] i = none
  get_elem? (x ∷ xs) ℕ.zero = some x
  get_elem? (x ∷ xs) (ℕ.suc i) = get_elem? xs i

  abbrev pub is_empty : List A → Bool
  is_empty [] = true
  is_empty (x ∷ xs) = false

  -- `Iterator::any`, `Iterator::all`
  abbrev pub any : (A → Bool) → List A → Bool
  any p [] = false
  any p (x ∷ xs) = p x || any p xs

  abbrev pub all : (A → Bool) → List A → Bool
  all p [] = true
  all p (x ∷ xs) = p x && all p xs

  abbrev pub keep : (A → Bool) → List A → List A
  keep p [] = []
  keep p (x ∷ xs) = let rest = keep p xs in if p x then x ∷ rest else rest

  -- `slice.windows(2).any(p)` and `.all(p)`
  abbrev pub any_window : (A → A → Bool) → List A → Bool
  any_window p [] = false
  any_window p (x ∷ []) = false
  any_window p (x ∷ y ∷ xs) = p x y || any_window p (y ∷ xs)

  abbrev pub all_windows : (A → A → Bool) → List A → Bool
  all_windows p [] = true
  all_windows p (x ∷ []) = true
  all_windows p (x ∷ y ∷ xs) = p x y && all_windows p (y ∷ xs)

module _ {ℓ κ} {A : Type ℓ} where
  abbrev pub All : (A → Type κ) → List A → Type κ
  All P [] = Unit
  All P (x ∷ xs) = P x × All P xs

  -- Every pair of positions, the earlier one first.
  abbrev pub AllPairs : (A → A → Type κ) → List A → Type κ
  AllPairs R [] = Unit
  AllPairs R (x ∷ xs) = All (R x) xs × AllPairs R xs

abbrev pub In : {A : Type 0} → A → List A → Type 0
In a [] = ⊥
In a (x ∷ xs) = (a ≡ x) ⊎ In a xs

-- `contains` of a set of texts, kept as the list of its members.
abbrev pub contains : String → List String → Bool
contains k [] = false
contains k (x ∷ xs) = (k == x) || contains k xs

pub contains→In : (k : String) (l : List String) → contains k l ≡ true → In k l
contains→In k [] h = cc
contains→In k (x ∷ xs) h = elim (Bool-cases (k == x)) [
  | inl same ↦ inl ((eq_iff k x).0 same)
  | inr other ↦ inr (contains→In k xs (ground arith))
]

pub In→contains : (k : String) (l : List String) → In k l → contains k l ≡ true
In→contains k [] h = elim h [ ]
In→contains k (x ∷ xs) (inl e) = ground (arith, eq_iff k x)
In→contains k (x ∷ xs) (inr m) = ground (arith, In→contains k xs m)

pub contains_iff : (k : String) (l : List String) → (contains k l ≡ true) ↔ In k l
contains_iff k l = (contains→In k l, In→contains k l)

-- A loop that inserts each text into a set; true when no text is met twice.
abbrev pub all_distinct : List String → Bool
all_distinct [] = true
all_distinct (x ∷ xs) = not (contains x xs) && all_distinct xs

module _ {A : Type 0} where
  pub all→In : (p : A → Bool) (l : List A) → all p l ≡ true → (a : A) → In a l → p a ≡ true
  all→In p [] h a m = elim m [ ]
  all→In p (x ∷ xs) h a (inl e) = rw e (ground arith)
  all→In p (x ∷ xs) h a (inr m) = all→In p xs (ground arith) a m

  pub any_false→In : (p : A → Bool) (l : List A) → any p l ≡ false → (a : A) → In a l → p a ≡ false
  any_false→In p [] h a m = elim m [ ]
  any_false→In p (x ∷ xs) h a (inl e) = rw e (ground arith)
  any_false→In p (x ∷ xs) h a (inr m) = any_false→In p xs (ground arith) a m

  pub any→In : (p : A → Bool) (l : List A) → any p l ≡ true → (a : A) × In a l × (p a ≡ true)
  any→In p [] h = cc
  any→In p (x ∷ xs) h = elim (Bool-cases (p x)) [
    | inl here ↦ (x, inl refl, here)
    | inr other ↦ let (a, m, e) = any→In p xs (ground arith) in (a, inr m, e)
  ]

  pub In→any : (p : A → Bool) (l : List A) (a : A) → In a l → p a ≡ true → any p l ≡ true
  In→any p [] a m h = elim m [ ]
  In→any p (x ∷ xs) a (inl e) h = ground arith
  In→any p (x ∷ xs) a (inr m) h = ground (arith, In→any p xs a m h)

  pub In-append_left : (a : A) (xs ys : List A) → In a xs → In a (xs ++ ys)
  In-append_left a [] ys m = elim m [ ]
  In-append_left a (x ∷ xs) ys (inl e) = inl e
  In-append_left a (x ∷ xs) ys (inr m) = inr (In-append_left a xs ys m)

  pub In-append_right : (a : A) (xs ys : List A) → In a ys → In a (xs ++ ys)
  In-append_right a [] ys m = m
  In-append_right a (x ∷ xs) ys m = inr (In-append_right a xs ys m)

  pub In-append : (a : A) (xs ys : List A) → In a (xs ++ ys) → In a xs ⊎ In a ys
  In-append a [] ys m = inr m
  In-append a (x ∷ xs) ys (inl e) = inl (inl e)
  In-append a (x ∷ xs) ys (inr m) = elim (In-append a xs ys m) [
    | inl l ↦ inl (inr l)
    | inr r ↦ inr r
  ]

  pub append-eq-nil : (xs ys : List A) → xs ++ ys ≡ [] → (xs ≡ []) × (ys ≡ [])
  append-eq-nil [] ys h = (refl, h)
  append-eq-nil (x ∷ xs) ys h = cc

  pub In→All : (P : A → Type 0) (l : List A) → All P l → (a : A) → In a l → P a
  In→All P [] h a m = elim m [ ]
  In→All P (x ∷ xs) h a (inl e) = subst P (sym e) h.0
  In→All P (x ∷ xs) h a (inr m) = In→All P xs h.1 a m

  pub All-map : (P Q : A → Type 0) (l : List A) → ((a : A) → P a → Q a) → All P l → All Q l
  All-map P Q [] f h = tt
  All-map P Q (x ∷ xs) f h = (f x h.0, All-map P Q xs f h.1)

  pub All-of_In : (P : A → Type 0) (l : List A) → ((a : A) → In a l → P a) → All P l
  All-of_In P [] h = tt
  All-of_In P (x ∷ xs) h = (h x (inl refl), All-of_In P xs (λ a m. h a (inr m)))

-- A diagnostic pushed under a test, and no diagnostics at all.
pub when-eq-nil {ℓ} : {A : Type ℓ} (b : Bool) (x : A) → (if b then x ∷ [] else []) ≡ [] → b ≡ false
when-eq-nil true x h = cc
when-eq-nil false x h = refl

pub unless-eq-nil {ℓ} : {A : Type ℓ} (b : Bool) (x : A) → (if b then [] else x ∷ []) ≡ [] → b ≡ true
unless-eq-nil true x h = refl
unless-eq-nil false x h = cc

pub nat_beq→eq : (a b : ℕ) → nat_beq a b ≡ true → a ≡ b
nat_beq→eq a b h = ground arith

pub List-cases {ℓ} : {A : Type ℓ} (l : List A) → (l ≡ []) ⊎ ((x : A) × (xs : List A) × (l ≡ x ∷ xs))
List-cases [] = inl refl
List-cases (x ∷ xs) = inr (x, xs, refl)

-- `xs.iter().zip(ys).map(f)`: as long as the shorter list.
abbrev pub zip_with {ℓ κ ι} :
    {A : Type ℓ} {B : Type κ} {C : Type ι} → (A → B → C) → List A → List B → List C
zip_with f [] ys = []
zip_with f (x ∷ xs) [] = []
zip_with f (x ∷ xs) (y ∷ ys) = f x y ∷ zip_with f xs ys

pub length-map {ℓ κ} :
    {A : Type ℓ} {B : Type κ} (f : A → B) (xs : List A) → length (map f xs) ≡ length xs
length-map f [] = refl
length-map f (x ∷ xs) = ap suc (length-map f xs)
