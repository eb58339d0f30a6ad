-- ===== src/Base/Text.antt =====
-- Texts: the operations of Rust's `str` that the program walks characters with.
use Prim.Native.Nat.{ℕ, compare, Ordering}
use Prim.Native.Char.{code}
use Prim.Native.String.{String, ◌++◌ as ◌<>◌}
use mathlib.Core.Path.{◌≡◌, refl}
use mathlib.Core.Bool.{Bool, true, false, ◌&&◌, ◌||◌}
use mathlib.Core.Option.{Option, none, some}
use native.Mathlib.Omega.{arith}
use text.Mathlib.TextEquality.{Char-path}
use text.Mathlib.TextLemmas.{nil-append, cons-append}
use treetop_bundle.Base.Tests.{leb, nat_beq, if◌then◌else◌}

-- `str::strip_prefix`
unfoldable pub strip_prefix : String → String → Option String
strip_prefix String.[] name = some name
strip_prefix (String.◌∷◌ c root) String.[] = none
strip_prefix (String.◌∷◌ c root) (String.◌∷◌ d name) =
    if nat_beq (code c) (code d) then strip_prefix root name else none

-- `char::is_whitespace`: the characters with the property White_Space.
abbrev pub is_whitespace : ℕ → Bool
is_whitespace c =
    leb 9 c && leb c 13
    || nat_beq c 32
    || nat_beq c 0x85
    || nat_beq c 0xa0
    || nat_beq c 0x1680
    || leb 0x2000 c && leb c 0x200a
    || nat_beq c 0x2028
    || nat_beq c 0x2029
    || nat_beq c 0x202f
    || nat_beq c 0x205f
    || nat_beq c 0x3000

-- `s.trim_start()`
unfoldable pub trim_start : String → String
trim_start String.[] = String.[]
trim_start (String.◌∷◌ c s) =
    let rest = trim_start s in if is_whitespace (code c) then rest else String.◌∷◌ c s

-- `s.is_empty()`
abbrev pub is_empty_text : String → Bool
is_empty_text String.[] = true
is_empty_text (String.◌∷◌ c s) = false

-- `s.trim().is_empty()`: nothing is left when the leading white space is gone.
unfoldable pub is_blank : String → Bool
unfolding trim_start
is_blank s = is_empty_text (trim_start s)

-- `s.chars().any(p)`
abbrev pub any_char : (ℕ → Bool) → String → Bool
any_char p String.[] = false
any_char p (String.◌∷◌ c s) = p (code c) || any_char p s

-- `s < t`: by code points, which is the order of the UTF-8 bytes.
unfoldable pub str_ltb : String → String → Bool
str_ltb String.[] String.[] = false
str_ltb String.[] (String.◌∷◌ d t) = true
str_ltb (String.◌∷◌ c s) String.[] = false
str_ltb (String.◌∷◌ c s) (String.◌∷◌ d t) =
    let rest = str_ltb s t in
    elim (compare (code c) (code d)) [
      | Ordering.lt ↦ true
      | Ordering.eq ↦ rest
      | Ordering.gt ↦ false
    ]

pub str_ltb_irrefl : (s : String) → str_ltb s s ≡ false
unfolding str_ltb
str_ltb_irrefl String.[] = refl
str_ltb_irrefl (String.◌∷◌ c s) = ground (arith, str_ltb_irrefl s)

pub str_ltb_trans : (s t u : String) → str_ltb s t ≡ true → str_ltb t u ≡ true → str_ltb s u ≡ true
unfolding str_ltb
str_ltb_trans String.[] String.[] String.[] p q = cc
str_ltb_trans String.[] (String.◌∷◌ d t) String.[] p q = cc
str_ltb_trans String.[] t (String.◌∷◌ e u) p q = refl
str_ltb_trans (String.◌∷◌ c s) String.[] u p q = cc
str_ltb_trans (String.◌∷◌ c s) (String.◌∷◌ d t) String.[] p q = cc
str_ltb_trans (String.◌∷◌ c s) (String.◌∷◌ d t) (String.◌∷◌ e u) p q =
    ground (arith, str_ltb_trans s t u)

-- Two texts of which neither comes first are equal.
pub str_ltb_connex : (s t : String) → str_ltb s t ≡ false → str_ltb t s ≡ false → s ≡ t
unfolding str_ltb
str_ltb_connex String.[] String.[] p q = refl
str_ltb_connex String.[] (String.◌∷◌ d t) p q = cc
str_ltb_connex (String.◌∷◌ c s) String.[] p q = cc
str_ltb_connex (String.◌∷◌ c s) (String.◌∷◌ d t) p q =
    ground (arith, Char-path c d, str_ltb_connex s t)

pub strip_prefix-append : (s t : String) → strip_prefix s (s <> t) ≡ some t
unfolding strip_prefix
strip_prefix-append String.[] t = ground (arith, nil-append t)
strip_prefix-append (String.◌∷◌ c s) t = ground (arith, cons-append c s t, strip_prefix-append s t)

pub strip_prefix-eq-some : (s n t : String) → strip_prefix s n ≡ some t → n ≡ s <> t
unfolding strip_prefix
strip_prefix-eq-some String.[] n t h = ground (arith, nil-append t)
strip_prefix-eq-some (String.◌∷◌ c s) String.[] t h = cc
strip_prefix-eq-some (String.◌∷◌ c s) (String.◌∷◌ d n) t h =
    ground (arith, Char-path c d, cons-append c s t, strip_prefix-eq-some s n t)
