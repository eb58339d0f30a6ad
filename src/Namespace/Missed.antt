-- ===== src/Namespace/Missed.antt =====
-- Overlaps that the test on neighbours misses: a name with a digit sorts between a root and the
-- names below it.
use Prim.Native.Char.{Char, code}
use text.Mathlib.TextLemmas.{
  nil-append, append-nil, append_assoc, append_cancel_left, cons-append, head-eq_of_cons-eq,
  cons-ne-nil,
}
use treetop_bundle.Base.{
  ◌<◌, String, ◌<>◌, ◌≡◌, refl, inl, inr, sym, ap, ◌∙◌, true, false, [], ◌∷◌, arith, Bool-cases,
  str_ltb, StrLe, StrLe-of_lt, sort_by,
}
use treetop_bundle.Namespace.{namespaces_overlap, any_overlap, sort_texts}
use treetop_bundle.Namespace.Ownership.{Owns}
use treetop_bundle.Namespace.Adjacent.{StrLe-append, colons, overlap→Owns, Owns→overlap, Disjoint}

str_ltb-append : (s t u : String) → str_ltb (s <> t) (s <> u) ≡ str_ltb t u
unfolding str_ltb
str_ltb-append String.[] t u = rw (nil-append t, nil-append u)
str_ltb-append (String.◌∷◌ c s) t u =
    rw (cons-append c s t, cons-append c s u) (ground (arith, str_ltb-append s t u))

module _ (root d rest : String) (c : Char) (low : code c < 58) where
  abbrev below : String
  below = root <> ("::" <> rest)

  abbrev beside : String
  beside = root <> String.◌∷◌ c d

  not-Owns-beside : ¬ Owns root beside
  not-Owns-beside (inl e) =
      cons-ne-nil c d (append_cancel_left root _ _ (e ∙ sym (append-nil root)))
  not-Owns-beside (inr (r, e)) =
      let e' : String.◌∷◌ c d ≡ String.◌∷◌ ":" (String.◌∷◌ ":" r) =
        append_cancel_left root _ _ e ∙ colons r in
      ground (arith, ap code (head-eq_of_cons-eq e'))

  not-Owns-below : ¬ Owns beside below
  not-Owns-below (inl e) =
      let e' : String.◌∷◌ ":" (String.◌∷◌ ":" rest) ≡ String.◌∷◌ c d =
        sym (colons rest) ∙ append_cancel_left root _ _ e in
      ground (arith, ap code (head-eq_of_cons-eq e'))
  not-Owns-below (inr (r, e)) =
      let e' : String.◌∷◌ ":" (String.◌∷◌ ":" rest) ≡ String.◌∷◌ c (d <> ("::" <> r)) =
        sym (colons rest)
        ∙ append_cancel_left root _ _ (e ∙ append_assoc root _ _)
        ∙ cons-append c d _ in
      ground (arith, ap code (head-eq_of_cons-eq e'))

  beside-lt-below : str_ltb beside below ≡ true
  unfolding str_ltb
  beside-lt-below = str_ltb-append root _ _ ∙ rw (colons rest) (ground arith)

  Disjoint-of_not-Owns : (x z : String) → StrLe x z → ¬ Owns x z → Disjoint x z
  Disjoint-of_not-Owns x z le h = elim (Bool-cases (namespaces_overlap x z)) [
    | inl meets ↦ absurd (h (overlap→Owns x z le meets))
    | inr ok ↦ ok
  ]

  sorted : sort_texts (root ∷ beside ∷ below ∷ []) ≡ root ∷ beside ∷ below ∷ []
  unfolding sort_by
  sorted = rw (StrLe-of_lt beside below beside-lt-below, StrLe-append root (String.◌∷◌ c d)) refl

  -- The test misses the overlap of a root with a name below it when a third namespace continues
  -- the root by a character before `:`, such as a digit: it finds no overlap among the three.
  pub any_overlap_misses :
      (any_overlap (root ∷ beside ∷ below ∷ []) ≡ false) × (namespaces_overlap root below ≡ true)
  unfolding any_overlap
  any_overlap_misses = (
    rw sorted (
        ground (
          arith,
          Disjoint-of_not-Owns root beside (StrLe-append root (String.◌∷◌ c d)) not-Owns-beside,
          Disjoint-of_not-Owns beside below (StrLe-of_lt beside below beside-lt-below)
              not-Owns-below,
        )),
    Owns→overlap root below (inr (rest, refl)),
  )
