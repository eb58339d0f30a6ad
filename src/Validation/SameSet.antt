-- ===== src/Validation/SameSet.antt =====
-- Two lists that `same_set` compares have the same members.
use treetop_bundle.Base.{
  String, ◌≡◌, sym, ◌∙◌, true, inl, inr, List, arith, all→In, contains→In, contains, Bool-cases,
}
use treetop_bundle.Validation.ArchiveParts.{same_set}

pub same_set-contains :
    (xs ys : List String) → same_set xs ys ≡ true → (p : String) → contains p xs ≡ contains p ys
unfolding same_set
same_set-contains xs ys h p = elim (Bool-cases (contains p xs)) [
  | inl here ↦
      here ∙ sym (all→In (λ x. contains x ys) xs (ground (arith, h)) p (contains→In p xs here))
  | inr out ↦ elim (Bool-cases (contains p ys)) [
    | inl here ↦
        let back = all→In (λ y. contains y xs) ys (ground (arith, h)) p (contains→In p ys here) in
        absurd (ground (arith, back, out))
    | inr gone ↦ out ∙ sym gone
  ]
]
