-- ===== src/Base/Bits.antt =====
-- The low digits of a number, as a mask of ones takes them.
use Prim.Native.Nat.{ℕ, zero, suc, bit_and, digits, bit_and-bitwise, min, ◌*◌, ◌+◌, ◌/◌, ◌%◌, ◌≤◌}
use mathlib.Core.Path.{◌≡◌, refl, ◌∙◌}
use native.Mathlib.Omega.{arith}

abbrev low : ℕ → ℕ → ℕ → ℕ
low n a b = digits (λ b. zero) min n a b

-- The mask takes the remainder.
abbrev Takes : ℕ → ℕ → Type 0
Takes b m = (n a : ℕ) → a ≤ n → low n a b ≡ a % m

min_zero : (r : ℕ) → min r 0 ≡ 0
min_zero r = omega arith

min_one : (r : ℕ) → r ≤ 1 → min r 1 ≡ r
min_one zero h = refl
min_one (suc zero) h = refl
min_one (suc (suc r)) h = absurd (omega arith)

Takes-0 : Takes 0 1
Takes-0 zero zero h = refl
Takes-0 zero (suc a) h = absurd (omega arith)
Takes-0 (suc n) zero h = refl
Takes-0 (suc n) (suc a) h =
    let rest = Takes-0 n (suc a / 2) (omega arith) in
    let digit = min_zero (suc a % 2) in omega (arith, rest, digit)

-- One more digit.
Takes-next :
    (b half m k : ℕ)
    → b / 2 ≡ half
    → b % 2 ≡ 1
    → 0 ≡ 0 % k
    → ((x : ℕ) → x / 2 % m * 2 + x % 2 ≡ x % k)
    → Takes half m
    → Takes b k
Takes-next b half m k p q z next taken zero zero h = z
Takes-next b half m k p q z next taken zero (suc a) h = absurd (omega arith)
Takes-next b half m k p q z next taken (suc n) zero h = z
Takes-next b half m k p q z next taken (suc n) (suc a) h =
    let rest = taken n (suc a / 2) (omega arith) in
    let digit = min_one (suc a % 2) (omega arith) in rw (p, q, rest, digit) (next (suc a))

Takes-7 : Takes 7 8
Takes-7 =
    Takes-next 7 3 4 8 refl refl refl (λ x. omega arith)
      (Takes-next 3 1 2 4 refl refl refl (λ x. omega arith)
        (Takes-next 1 0 1 2 refl refl refl (λ x. omega arith) Takes-0))

Takes-63 : Takes 63 64
Takes-63 =
    Takes-next 63 31 32 64 refl refl refl (λ x. omega arith)
      (Takes-next 31 15 16 32 refl refl refl (λ x. omega arith)
        (Takes-next 15 7 8 16 refl refl refl (λ x. omega arith) Takes-7))

-- The last six binary digits, as a mask.
pub bit_and-63 : (a : ℕ) → bit_and a 63 ≡ a % 64
bit_and-63 a = (λ i. bit_and-bitwise a 63 i) ∙ Takes-63 a a (omega arith)
