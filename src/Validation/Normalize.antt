-- ===== src/Validation/Normalize.antt =====
-- `normalize_text` and `single_line`: the text of a policy file as it enters the bundle.
use Prim.Native.Char.{code}
use text.Mathlib.TextLemmas.{nil-append, cons-append}
use treetop_bundle.Base.{
  ℕ, String, ◌<>◌, ◌≡◌, refl, ap, ◌∙◌, Bool, false, ◌&&◌, ◌||◌, arith, nat_beq, any_char,
  is_empty_text, Bool-cases, inl, inr, if◌then◌else◌,
}

-- `.replace("\r\n", "\n")`
replace_crlf : String → String
replace_crlf String.[] = String.[]
replace_crlf (String.◌∷◌ c String.[]) = String.◌∷◌ c String.[]
replace_crlf (String.◌∷◌ c (String.◌∷◌ d s)) =
    let pair = String.◌∷◌ "\n" (replace_crlf s) in
    let one = String.◌∷◌ c (replace_crlf (String.◌∷◌ d s)) in
    if nat_beq (code c) 13 && nat_beq (code d) 10 then pair else one

-- `.replace('\r', "\n")`
replace_cr : String → String
replace_cr String.[] = String.[]
replace_cr (String.◌∷◌ c s) = String.◌∷◌ (if nat_beq (code c) 13 then "\n" else c) (replace_cr s)

-- `while normalized.ends_with('\n') { normalized.pop(); }`
pop_newlines : String → String
pop_newlines String.[] = String.[]
pop_newlines (String.◌∷◌ c s) =
    let rest = pop_newlines s in
    if nat_beq (code c) 10 && is_empty_text rest then String.[] else String.◌∷◌ c rest

unfoldable pub normalize_text : String → String
unfolding replace_crlf replace_cr pop_newlines
normalize_text source = pop_newlines (replace_cr (replace_crlf source)) <> "\n"

-- `single_line`: no line break is left.
unfoldable pub single_line : String → String
single_line String.[] = String.[]
single_line (String.◌∷◌ c s) =
    String.◌∷◌ (if nat_beq (code c) 13 || nat_beq (code c) 10 then " " else c) (single_line s)

abbrev pub is_carriage_return : ℕ → Bool
is_carriage_return c = nat_beq c 13

abbrev pub is_line_break : ℕ → Bool
is_line_break c = nat_beq c 13 || nat_beq c 10

any_char-append :
    (p : ℕ → Bool) (s t : String) → any_char p (s <> t) ≡ (any_char p s || any_char p t)
any_char-append p String.[] t = rw nil-append refl
any_char-append p (String.◌∷◌ c s) t = rw cons-append (ground (arith, any_char-append p s t))

replace_cr-clean : (s : String) → any_char is_carriage_return (replace_cr s) ≡ false
unfolding replace_cr
replace_cr-clean String.[] = refl
replace_cr-clean (String.◌∷◌ c s) = elim (Bool-cases (nat_beq (code c) 13)) [
  | inl cr ↦ rw cr (replace_cr-clean s)
  | inr plain ↦ rw (plain, plain) (replace_cr-clean s)
]

pop_newlines-clean :
    (s : String)
    → any_char is_carriage_return s ≡ false
    → any_char is_carriage_return (pop_newlines s) ≡ false
unfolding pop_newlines
pop_newlines-clean String.[] h = refl
pop_newlines-clean (String.◌∷◌ c s) h = ground (arith, pop_newlines-clean s)

normalize_text-clean : (s : String) → any_char is_carriage_return (normalize_text s) ≡ false
unfolding normalize_text
normalize_text-clean s =
    any_char-append is_carriage_return (pop_newlines (replace_cr (replace_crlf s))) "\n"
    ∙ ground
        (arith, pop_newlines-clean (replace_cr (replace_crlf s)), replace_cr-clean (replace_crlf s))

replace_crlf_of_clean : (s : String) → any_char is_carriage_return s ≡ false → replace_crlf s ≡ s
unfolding replace_crlf
replace_crlf_of_clean String.[] h = refl
replace_crlf_of_clean (String.◌∷◌ c String.[]) h = refl
replace_crlf_of_clean (String.◌∷◌ c (String.◌∷◌ d s)) h =
    ground (arith, replace_crlf_of_clean (String.◌∷◌ d s))

replace_cr_of_clean : (s : String) → any_char is_carriage_return s ≡ false → replace_cr s ≡ s
unfolding replace_cr
replace_cr_of_clean String.[] h = refl
replace_cr_of_clean (String.◌∷◌ c s) h = ground (arith, replace_cr_of_clean s)

pop_newlines_again : (s : String) → pop_newlines (pop_newlines s <> "\n") ≡ pop_newlines s
unfolding pop_newlines
pop_newlines_again String.[] = refl
pop_newlines_again (String.◌∷◌ c s) =
    elim (Bool-cases (nat_beq (code c) 10 && is_empty_text (pop_newlines s))) [
      | inl gone ↦ rw gone refl
      | inr kept ↦ rw kept (rw cons-append (ground (arith, pop_newlines_again s)))
    ]

-- Normalised text has no carriage return, and normalising it again changes nothing.
pub normalize_text_idem :
    (s : String)
    → (any_char is_carriage_return (normalize_text s) ≡ false)
      × (normalize_text (normalize_text s) ≡ normalize_text s)
unfolding normalize_text
normalize_text_idem s = (normalize_text-clean s, again)
  where
    again : normalize_text (normalize_text s) ≡ normalize_text s
    again =
        let n = normalize_text s in
        let clean = normalize_text-clean s in
        ap (λ t. pop_newlines t <> "\n")
          (ap replace_cr (replace_crlf_of_clean n clean) ∙ replace_cr_of_clean n clean)
        ∙ ap (λ t. t <> "\n") (pop_newlines_again (replace_cr (replace_crlf s)))

-- A header line of the policy text has no line break, whatever the name or path.
pub single_line-clean : (s : String) → any_char is_line_break (single_line s) ≡ false
unfolding single_line
single_line-clean String.[] = refl
single_line-clean (String.◌∷◌ c s) =
    elim (Bool-cases (nat_beq (code c) 13 || nat_beq (code c) 10)) [
      | inl broken ↦ rw broken (single_line-clean s)
      | inr plain ↦ rw (plain, plain) (single_line-clean s)
    ]
