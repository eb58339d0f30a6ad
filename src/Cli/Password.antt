-- ===== src/Cli/Password.antt =====
-- The password that the commands take from a file, and the key that they load.
use treetop_bundle.FileSystem.{Files}
use treetop_bundle.Cli.World.{Console}
use treetop_bundle.Signing.Crypto.{Bytes}
use treetop_bundle.Cli.Keys.{
  max_signing_key_password_bytes, password_of_file, trim_line_ending, pop, ends_with,
  configured_signing_key_password,
}
use treetop_bundle.Base.{
  ◌+◌, inr, inl, Bool-cases, nat_beq, ◌⊎◌, ℕ, ◌≤◌, ◌≡◌, refl, ap, String, true, false, some, [],
  ◌∷◌, ◌++◌, arith, length, ltb,
}
use treetop_bundle.Error.{ok, >>=-eq-ok, refuse_if, refuse_if-eq-ok, ok-injective, map_err}

ends_with-append : (b x : ℕ) (bytes : Bytes) → ends_with b (bytes ++ (x ∷ [])) ≡ nat_beq x b
unfolding ends_with
ends_with-append b x [] = refl
ends_with-append b x (y ∷ []) = refl
ends_with-append b x (y ∷ z ∷ zs) = ends_with-append b x (z ∷ zs)

pop-append : (x : ℕ) (bytes : Bytes) → pop (bytes ++ (x ∷ [])) ≡ bytes
unfolding pop
pop-append x [] = refl
pop-append x (y ∷ []) = refl
pop-append x (y ∷ z ∷ zs) = ap (λ rest. y ∷ rest) (pop-append x (z ∷ zs))

append-two : (x y : ℕ) (bytes : Bytes) → bytes ++ (x ∷ y ∷ []) ≡ (bytes ++ (x ∷ [])) ++ (y ∷ [])
append-two x y [] = refl
append-two x y (z ∷ zs) = ap (λ rest. z ∷ rest) (append-two x y zs)

-- One line ending is taken off, and nothing else: a carriage return and a line feed, a line feed
-- that follows no carriage return, or nothing where no line feed is last.
pub trim_line_ending_lem :
    (bytes : Bytes)
    → (trim_line_ending (bytes ++ (13 ∷ 10 ∷ [])) ≡ bytes)
      × ((ends_with 13 bytes ≡ true) ⊎ (trim_line_ending (bytes ++ (10 ∷ [])) ≡ bytes))
      × ((ends_with 10 bytes ≡ true) ⊎ (trim_line_ending bytes ≡ bytes))
unfolding trim_line_ending
trim_line_ending_lem bytes = (
  rw (append-two 13 10 bytes) (
      rw (ends_with-append 10 10 (bytes ++ (13 ∷ []))) (
        rw (pop-append 10 (bytes ++ (13 ∷ [])))
          (rw (ends_with-append 13 13 bytes) (pop-append 13 bytes)))),
  elim (Bool-cases (ends_with 13 bytes)) [
    | inl e ↦ inl e
    | inr e ↦ inr (rw (ends_with-append 10 10 bytes) (rw (pop-append 10 bytes) (rw e refl)))
  ],
  elim (Bool-cases (ends_with 10 bytes)) [ inl e ↦ inl e | inr e ↦ inr (rw e refl) ],
)

length-pop : (bytes : Bytes) → length (pop bytes) ≤ length bytes
unfolding pop
length-pop [] = omega arith
length-pop (x ∷ []) = omega arith
length-pop (x ∷ y ∷ ys) = omega (arith, length-pop (y ∷ ys))

length-trim_line_ending : (bytes : Bytes) → length (trim_line_ending bytes) ≤ length bytes
unfolding trim_line_ending
length-trim_line_ending bytes = ground (arith, length-pop bytes, length-pop (pop bytes))

-- A password that is read from a file is no longer than the limit, whatever the file holds.
pub length-configured_signing_key_password :
    (console : Console) (F : Files) (path : String) (password : Bytes)
    → configured_signing_key_password console F (some path) ≡ ok (some password)
    → length password ≤ max_signing_key_password_bytes
unfolding configured_signing_key_password password_of_file
length-configured_signing_key_password console F path password h =
    let (trimmed, h0, last) = >>=-eq-ok (password_of_file F path) _ h in
    let (file, _, h1) = >>=-eq-ok (map_err _ (F.open_file path)) _ h0 in
    let (bytes, _, h2) =
      >>=-eq-ok (map_err _ (file.read_up_to (max_signing_key_password_bytes + 1))) _ h1 in
    let (_, short, h3) =
      >>=-eq-ok (refuse_if (ltb max_signing_key_password_bytes (length bytes)) _) _ h2 in
    let s : ltb max_signing_key_password_bytes (length bytes) ≡ false = refuse_if-eq-ok _ _ short in
    let t : trim_line_ending bytes ≡ trimmed = ok-injective h3 in
    let l : some trimmed ≡ some password = ok-injective last in
    let e : trim_line_ending bytes ≡ password = cc in
    let n : length (trim_line_ending bytes) ≡ length password = ap length e in
    ground (arith, length-trim_line_ending bytes)
