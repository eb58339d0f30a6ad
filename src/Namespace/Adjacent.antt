-- ===== src/Namespace/Adjacent.antt =====
-- How far the test on neighbours finds overlapping namespaces: it is complete for names in which no
-- character sorts before `:`, and not for names with digits.
use Prim.Native.Char.{Char, code}
use text.Mathlib.TextEquality.{Char-path}
use text.Mathlib.TextLemmas.{nil-append, cons-append}
use treetop_bundle.Base.{
  ◌≤◌, ◌<◌, String, ◌<>◌, ◌≡◌, refl, ◌⊎◌, inl, inr, sym, ap, ◌∙◌, Bool, true, false, ◌&&◌, List, [],
  ◌∷◌, arith, ltb, leb, Bool-cases, any_window, All, AllPairs, str_ltb, StrLe, StrLe-trans,
  str_ltb_connex, str_ltb_irrefl, IsSortedBy, sort_by-IsSortedBy, AllPairs-sort_by, All-sort_by,
}
use treetop_bundle.Namespace.{namespace_owns, namespaces_overlap, any_overlap, sort_texts}
use treetop_bundle.Namespace.Ownership.{Owns, namespace_owns_iff}

-- No character comes before `:`, and the last one is not `:`. So names without digits.
unfoldable pub sorts_after_colon : String → Bool
sorts_after_colon String.[] = true
sorts_after_colon (String.◌∷◌ c String.[]) = ltb 58 (code c)
sorts_after_colon (String.◌∷◌ c (String.◌∷◌ d s)) =
    leb 58 (code c) && sorts_after_colon (String.◌∷◌ d s)

pub StrLe-append : (s t : String) → StrLe s (s <> t)
unfolding str_ltb
StrLe-append String.[] String.[] = refl
StrLe-append String.[] (String.◌∷◌ c t) = rw nil-append
StrLe-append (String.◌∷◌ c s) t = rw cons-append (ground (arith, StrLe-append s t))

-- The separator and what follows, character by character.
pub colons : (rest : String) → "::" <> rest ≡ String.◌∷◌ ":" (String.◌∷◌ ":" rest)
colons rest =
    cons-append ":" ":" rest
    ∙ ap (String.◌∷◌ ":") (cons-append ":" "" rest ∙ ap (String.◌∷◌ ":") (nil-append rest))

head_after_colon : (c : Char) (s : String) → sorts_after_colon (String.◌∷◌ c s) ≡ true → 58 ≤ code c
unfolding sorts_after_colon
head_after_colon c String.[] h = ground arith
head_after_colon c (String.◌∷◌ d s) h = ground arith

tail_after_colon :
    (c : Char) (s : String) → sorts_after_colon (String.◌∷◌ c s) ≡ true → sorts_after_colon s ≡ true
unfolding sorts_after_colon
tail_after_colon c String.[] h = refl
tail_after_colon c (String.◌∷◌ d s) h = ground arith

StrLe-cons :
    (a c : Char) (x y : String)
    → StrLe (String.◌∷◌ a x) (String.◌∷◌ c y)
    → (code a < code c) ⊎ ((code a ≡ code c) × StrLe x y)
unfolding str_ltb
StrLe-cons a c x y h = grind arith

-- What sorts between a root and a name below it is itself the root or below it.
between_chars :
    (x y rest : String)
    → StrLe x y
    → StrLe y (x <> String.◌∷◌ ":" (String.◌∷◌ ":" rest))
    → sorts_after_colon y ≡ true
    → (y ≡ x) ⊎ ((r : String) × (y ≡ x <> String.◌∷◌ ":" (String.◌∷◌ ":" r)))
unfolding str_ltb sorts_after_colon
between_chars String.[] String.[] rest p q plain = inl refl
between_chars String.[] (String.◌∷◌ c String.[]) rest p q plain =
    absurd (ground (arith, nil-append (String.◌∷◌ ":" (String.◌∷◌ ":" rest))))
between_chars String.[] (String.◌∷◌ c (String.◌∷◌ d y)) rest p q plain = inr (
  y,
  ground (
    arith,
    Char-path c ":",
    Char-path d ":",
    nil-append (String.◌∷◌ ":" (String.◌∷◌ ":" rest)),
    nil-append (String.◌∷◌ ":" (String.◌∷◌ ":" y)),
    head_after_colon d y (tail_after_colon c (String.◌∷◌ d y) plain),
    head_after_colon c (String.◌∷◌ d y) plain,
  ),
)
between_chars (String.◌∷◌ a x) String.[] rest p q plain = cc
between_chars (String.◌∷◌ a x) (String.◌∷◌ c y) rest p q plain =
    let q' : StrLe (String.◌∷◌ c y) (String.◌∷◌ a (x <> String.◌∷◌ ":" (String.◌∷◌ ":" rest))) =
      rw cons-append at q in
    elim (StrLe-cons a c x y p) [
      | inl lt ↦ elim (StrLe-cons c a y _ q') [
        | inl gt ↦ absurd (omega arith)
        | inr (e, le) ↦ absurd (omega arith)
      ]
      | inr (e, below) ↦ elim (StrLe-cons c a y _ q') [
        | inl gt ↦ absurd (omega arith)
        | inr (e', above) ↦
            cons_case (Char-path c a e')
              (between_chars x y rest below above (tail_after_colon c y plain))
      ]
    ]
  where
    cons_case :
        c ≡ a
        → (y ≡ x) ⊎ ((r : String) × (y ≡ x <> String.◌∷◌ ":" (String.◌∷◌ ":" r)))
        → (String.◌∷◌ c y ≡ String.◌∷◌ a x)
          ⊎ ((r : String) × (String.◌∷◌ c y ≡ String.◌∷◌ a x <> String.◌∷◌ ":" (String.◌∷◌ ":" r)))
    cons_case e (inl same) = inl (cc)
    cons_case e (inr (r, e')) = inr (r, cc (cons-append a x (String.◌∷◌ ":" (String.◌∷◌ ":" r))))

between :
    (x y rest : String)
    → StrLe x y
    → StrLe y (x <> ("::" <> rest))
    → sorts_after_colon y ≡ true
    → Owns x y
between x y rest p q plain = elim (between_chars x y rest p (rw (← colons rest) q) plain) [
  | inl same ↦ inl same
  | inr (r, e) ↦ inr (r, e ∙ ap (λ s. x <> s) (sym (colons r)))
]

Owns-le : (root name : String) → Owns root name → StrLe root name
Owns-le root name (inl e) = rw e (str_ltb_irrefl root)
Owns-le root name (inr (rest, e)) = rw e (StrLe-append root ("::" <> rest))

-- For names in order, to overlap is that the first owns the second.
pub overlap→Owns : (x z : String) → StrLe x z → namespaces_overlap x z ≡ true → Owns x z
unfolding namespaces_overlap
overlap→Owns x z le h = elim (Bool-cases (namespace_owns x z)) [
  | inl owned ↦ (namespace_owns_iff x z).0 owned
  | inr other ↦ inl (sym (str_ltb_connex x z (Owns-le z x (back other)) le))
]
  where
    back : namespace_owns x z ≡ false → Owns z x
    back other = (namespace_owns_iff z x).0 (ground arith)

abbrev pub Disjoint : String → String → Type 0
Disjoint a b = namespaces_overlap a b ≡ false

Disjoint-flip : (a b : String) → Disjoint a b → Disjoint b a
unfolding namespaces_overlap
Disjoint-flip a b h = ground arith

pub Owns→overlap : (x y : String) → Owns x y → namespaces_overlap x y ≡ true
unfolding namespaces_overlap
Owns→overlap x y h = ground (arith, (namespace_owns_iff x y).1 h)

-- An overlap with a later name shows as one with the next name.
next-Disjoint :
    (x y z : String)
    → StrLe x y
    → StrLe y z
    → sorts_after_colon y ≡ true
    → Disjoint x y
    → Disjoint x z
next-Disjoint x y z p q plain apart = elim (Bool-cases (namespaces_overlap x z)) [
  | inl meets ↦ elim (overlap→Owns x z (StrLe-trans x y z p q) meets) [
    | inl same ↦ ground (arith, Owns→overlap x y (inl (str_ltb_connex y x p (rw (← same) q))))
    | inr (rest, e) ↦ ground (arith, Owns→overlap x y (between x y rest p (rw (← e) q) plain))
  ]
  | inr ok ↦ ok
]

sorted-Disjoint :
    (l : List String)
    → IsSortedBy (λ s. s) l
    → All (λ s. sorts_after_colon s ≡ true) l
    → any_window namespaces_overlap l ≡ false
    → AllPairs Disjoint l
sorted-Disjoint [] s p h = tt
sorted-Disjoint (x ∷ []) s p h = (tt, tt)
sorted-Disjoint (x ∷ y ∷ l) s p h =
    ((ground arith, later l s.1.0 s.0.1), sorted-Disjoint (y ∷ l) s.1 p.1 (ground arith))
  where
    later :
        (zs : List String) → All (λ z. StrLe y z) zs → All (λ z. StrLe x z) zs → All (Disjoint x) zs
    later [] a b = tt
    later (z ∷ zs) a b = (next-Disjoint x y z s.0.0 a.0 p.1.0 (ground arith), later zs a.1 b.1)

-- Where no character of a namespace sorts before `:` and none ends in it, the test on neighbours
-- misses nothing: when it finds no overlap, no two of the namespaces overlap.
pub any_overlap_complete :
    (namespaces : List String)
    → All (λ s. sorts_after_colon s ≡ true) namespaces
    → any_overlap namespaces ≡ false
    → AllPairs Disjoint namespaces
unfolding any_overlap
any_overlap_complete namespaces plain h =
    AllPairs-sort_by (λ s. s) Disjoint Disjoint-flip namespaces
      (sorted-Disjoint (sort_texts namespaces) (sort_by-IsSortedBy (λ s. s) namespaces)
        (All-sort_by (λ s. s) (λ s. sorts_after_colon s ≡ true) namespaces plain) h)
