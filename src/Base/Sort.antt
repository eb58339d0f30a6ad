-- ===== src/Base/Sort.antt =====
-- Sorting by a text key, and sets of texts kept in order.
use Prim.Native.String.{String}
use mathlib.Core.Path.{◌≡◌, refl}
use mathlib.Core.Logic.{◌⊎◌, inl, inr}
use mathlib.Core.Bool.{true, false}
use mathlib.Core.List.{List, [], ◌∷◌}
use native.Mathlib.Omega.{arith}
use text.Mathlib.Text.{◌==◌}
use text.Mathlib.TextEquality.{eq_iff}
use treetop_bundle.Base.Tests.{if◌then◌else◌, Bool-cases}
use treetop_bundle.Base.Lists.{In, All, AllPairs, All-of_In, In→All, contains, all_windows}
use treetop_bundle.Base.Text.{str_ltb, str_ltb_irrefl, str_ltb_trans, str_ltb_connex}

-- `s ≤ t` for texts.
abbrev pub StrLe : String → String → Type 0
StrLe s t = str_ltb t s ≡ false

pub StrLe-trans : (s t u : String) → StrLe s t → StrLe t u → StrLe s u
StrLe-trans s t u p q = elim (Bool-cases (str_ltb u s)) [
  | inl lt ↦ elim (Bool-cases (str_ltb s t)) [
    | inl st ↦ ground (arith, str_ltb_trans u s t)
    | inr ts ↦ ground (arith, str_ltb_connex s t)
  ]
  | inr ge ↦ ge
]

pub StrLe-of_lt : (s t : String) → str_ltb s t ≡ true → StrLe s t
StrLe-of_lt s t h = elim (Bool-cases (str_ltb t s)) [
  | inl back ↦ ground (arith, str_ltb_trans s t s, str_ltb_irrefl s)
  | inr ok ↦ ok
]

-- `Vec::sort_by` on a text key, which is stable.
module _ {A : Type 0} (key : A → String) where
  unfoldable pub insert_by : A → List A → List A
  insert_by a [] = a ∷ []
  insert_by a (x ∷ xs) = if str_ltb (key x) (key a) then x ∷ insert_by a xs else a ∷ x ∷ xs

  unfoldable pub sort_by : List A → List A
  unfolding insert_by
  sort_by [] = []
  sort_by (x ∷ xs) = insert_by x (sort_by xs)

  -- Each element comes before all that follow it.
  abbrev pub IsSortedBy : List A → Type 0
  IsSortedBy [] = Unit
  IsSortedBy (x ∷ xs) = All (λ y. StrLe (key x) (key y)) xs × IsSortedBy xs

  All-insert_by : (P : A → Type 0) (a : A) (xs : List A) → P a → All P xs → All P (insert_by a xs)
  unfolding insert_by
  All-insert_by P a [] p h = (p, tt)
  All-insert_by P a (x ∷ xs) p h = elim (Bool-cases (str_ltb (key x) (key a))) [
    | inl later ↦ rw later (h.0, All-insert_by P a xs p h.1)
    | inr here ↦ rw here (p, (h.0, h.1))
  ]

  pub All-sort_by : (P : A → Type 0) (xs : List A) → All P xs → All P (sort_by xs)
  unfolding sort_by
  All-sort_by P [] h = tt
  All-sort_by P (x ∷ xs) h = All-insert_by P x (sort_by xs) h.0 (All-sort_by P xs h.1)

  All-StrLe :
      (a x : A) (xs : List A)
      → StrLe (key a) (key x)
      → All (λ y. StrLe (key x) (key y)) xs
      → All (λ y. StrLe (key a) (key y)) xs
  All-StrLe a x [] p h = tt
  All-StrLe a x (y ∷ ys) p h = (StrLe-trans (key a) (key x) (key y) p h.0, All-StrLe a x ys p h.1)

  insert_by-IsSortedBy : (a : A) (xs : List A) → IsSortedBy xs → IsSortedBy (insert_by a xs)
  unfolding insert_by
  insert_by-IsSortedBy a [] h = (tt, tt)
  insert_by-IsSortedBy a (x ∷ xs) h = elim (Bool-cases (str_ltb (key x) (key a))) [
    | inl later ↦ rw later (
      All-insert_by (λ y. StrLe (key x) (key y)) a xs (StrLe-of_lt (key x) (key a) later) h.0,
      insert_by-IsSortedBy a xs h.1,
    )
    | inr here ↦ rw here ((here, All-StrLe a x xs here h.0), h)
  ]

  pub sort_by-IsSortedBy : (xs : List A) → IsSortedBy (sort_by xs)
  unfolding sort_by
  sort_by-IsSortedBy [] = tt
  sort_by-IsSortedBy (x ∷ xs) = insert_by-IsSortedBy x (sort_by xs) (sort_by-IsSortedBy xs)

  In-insert_by : (b a : A) (xs : List A) → (b ≡ a) ⊎ In b xs → In b (insert_by a xs)
  unfolding insert_by
  In-insert_by b a [] (inl e) = inl e
  In-insert_by b a [] (inr m) = elim m [ ]
  In-insert_by b a (x ∷ xs) m = elim (Bool-cases (str_ltb (key x) (key a))) [
    | inl later ↦ rw later (elim m [
      | inl e ↦ inr (In-insert_by b a xs (inl e))
      | inr (inl e) ↦ inl e
      | inr (inr n) ↦ inr (In-insert_by b a xs (inr n))
    ])
    | inr here ↦ rw here m
  ]

  pub In-sort_by : (b : A) (xs : List A) → In b xs → In b (sort_by xs)
  unfolding sort_by
  In-sort_by b [] m = m
  In-sort_by b (x ∷ xs) (inl e) = In-insert_by b x (sort_by xs) (inl e)
  In-sort_by b (x ∷ xs) (inr m) = In-insert_by b x (sort_by xs) (inr (In-sort_by b xs m))

module _ {A : Type 0} (key : A → String) (R : A → A → Type 0)
    (flip : (x y : A) → R x y → R y x) where
  AllPairs-insert_by_head :
      (a : A) (xs : List A) (b : A) → All (R b) (insert_by key a xs) → R b a × All (R b) xs
  unfolding insert_by
  AllPairs-insert_by_head a [] b h = (h.0, tt)
  AllPairs-insert_by_head a (x ∷ xs) b h = elim (Bool-cases (str_ltb (key x) (key a))) [
    | inl later ↦
        let h' : R b x × All (R b) (insert_by key a xs) = rw later at h in
        let (r, rest) = AllPairs-insert_by_head a xs b h'.1 in (r, (h'.0, rest))
    | inr here ↦ let h' : R b a × (R b x × All (R b) xs) = rw here at h in h'
  ]

  AllPairs-insert_by :
      (a : A) (xs : List A) → AllPairs R (insert_by key a xs) → All (R a) xs × AllPairs R xs
  unfolding insert_by
  AllPairs-insert_by a [] h = (tt, tt)
  AllPairs-insert_by a (x ∷ xs) h = elim (Bool-cases (str_ltb (key x) (key a))) [
    | inl later ↦
        let h' : All (R x) (insert_by key a xs) × AllPairs R (insert_by key a xs) = rw later at h in
        let (r, rest) = AllPairs-insert_by_head a xs x h'.0 in
        let (all_a, pairs) = AllPairs-insert_by a xs h'.1 in ((flip x a r, all_a), (rest, pairs))
    | inr here ↦
        let h' : (R a x × All (R a) xs) × (All (R x) xs × AllPairs R xs) = rw here at h in h'
  ]

  -- What holds of all pairs of the sorted list holds of all pairs of the list.
  pub AllPairs-sort_by : (xs : List A) → AllPairs R (sort_by key xs) → AllPairs R xs
  unfolding sort_by
  AllPairs-sort_by [] h = tt
  AllPairs-sort_by (x ∷ xs) h =
      let (r, pairs) = AllPairs-insert_by x (sort_by key xs) h in
      let rest = AllPairs-sort_by xs pairs in (All-unsort (R x) xs r, rest)
    where
      All-unsort : (P : A → Type 0) (ys : List A) → All P (sort_by key ys) → All P ys
      All-unsort P ys h =
          All-of_In P ys (λ y m. In→All P (sort_by key ys) h y (In-sort_by key y ys m))

-- `BTreeSet<String>`: its members in ascending order. `insert` returns whether the text was new.
unfoldable pub set_insert : String → List String → List String
set_insert k [] = k ∷ []
set_insert k (x ∷ xs) =
    if k == x then x ∷ xs else if str_ltb k x then k ∷ x ∷ xs else x ∷ set_insert k xs

-- Strictly ascending, as the neighbours are compared.
abbrev pub IsAscending : List String → Type 0
IsAscending xs = all_windows str_ltb xs ≡ true

pub contains-set_insert :
    (j k : String) (xs : List String)
    → contains j (set_insert k xs) ≡ (if j == k then true else contains j xs)
unfolding set_insert
contains-set_insert j k [] = ground arith
contains-set_insert j k (x ∷ xs) =
    ground (arith, contains-set_insert j k xs, eq_iff j k, eq_iff k x, eq_iff j x)

pub set_insert-IsAscending :
    (k : String) (xs : List String) → IsAscending xs → IsAscending (set_insert k xs)
unfolding set_insert
set_insert-IsAscending k [] h = refl
set_insert-IsAscending k (x ∷ []) h = ground (arith, eq_iff k x, str_ltb_connex k x)
set_insert-IsAscending k (x ∷ y ∷ xs) h =
    ground (arith, eq_iff k x, eq_iff k y, str_ltb_connex k x, set_insert-IsAscending k (y ∷ xs))
