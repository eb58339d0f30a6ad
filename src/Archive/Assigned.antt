-- ===== src/Archive/Assigned.antt =====
-- Which policies the modules of a manifest assign, and the sets that the checks keep.
use treetop_bundle.Base.{
  String, ◌≡◌, ◌≢◌, refl, ◌||◌, inl, inr, some, List, [], ◌∷◌, ◌++◌, arith, All, contains,
  Bool-cases,
}
use treetop_bundle.Manifest.Accepted.{Distinct, Absent, Absent-cons}
use treetop_bundle.Validation.Ownership.{ModuleRecord}
use treetop_bundle.Archive.Manifest.{assign_ids}

-- The policies that the modules assign, in order.
abbrev pub all_assigned : List ModuleRecord → List String
all_assigned [] = []
all_assigned (m ∷ modules) = m.policy_ids ++ all_assigned modules

pub contains-append :
    (k : String) (xs ys : List String) → contains k (xs ++ ys) ≡ (contains k xs || contains k ys)
contains-append k [] ys = refl
contains-append k (x ∷ xs) ys = ground (arith, contains-append k xs ys)

pub All-append :
    (P : String → Type 0) (xs ys : List String) → All P xs → All P ys → All P (xs ++ ys)
All-append P [] ys a b = b
All-append P (x ∷ xs) ys a b = (a.0, All-append P xs ys a.1 b)

pub Distinct-append :
    (xs ys : List String) → Distinct xs → Distinct ys → Absent xs ys → Distinct (xs ++ ys)
Distinct-append [] ys a b h = b
Distinct-append (x ∷ xs) ys a b h =
    let (apart, rest) = Absent-cons x xs ys h in
    (All-append (λ id. x ≢ id) xs ys a.0 apart, Distinct-append xs ys a.1 b rest)

pub assign_ids-eq-some :
    (met ids assigned : List String)
    → assign_ids met ids ≡ some assigned
    → Distinct ids
      × Absent met ids
      × ((p : String) → contains p assigned ≡ (contains p ids || contains p met))
unfolding assign_ids
assign_ids-eq-some met [] assigned h = (tt, tt, λ p. ground (arith, h))
assign_ids-eq-some met (id ∷ ids) assigned h = elim (Bool-cases (contains id met)) [
  | inl old ↦ absurd (ground (arith, h, old))
  | inr new ↦
      let (distinct, absent, members) =
        assign_ids-eq-some (id ∷ met) ids assigned (ground (arith, h, new)) in
      let (apart, rest) = Absent-cons id met ids absent in
      ((apart, distinct), (new, rest), λ p. ground (arith, members p))
]
