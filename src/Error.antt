-- ===== src/Error.antt =====
-- src/error.rs: the error type and its results.
use treetop_bundle.Base.{◌∷◌, ℕ, String, Bool, true, false, List, [], ◌≡◌, refl}
use treetop_bundle.Diagnostic.{number, text, Diagnostic, Message}

pub data BundleError : Type 0 where
  validation : List Diagnostic → BundleError
  manifest : String → Message → BundleError
  json : String → Message → BundleError
  io : String → Message → BundleError
  key : Message → BundleError
  signing_key_password_required : BundleError
  archive : Message → BundleError
  size_limit : String → ℕ → BundleError
  serialization : Message → BundleError

-- Whether this error represents invalid user-controlled bundle content.
abbrev pub is_validation : BundleError → Bool
is_validation (validation ds) = true
is_validation (manifest path message) = true
is_validation (json path message) = true
is_validation (archive message) = true
is_validation (size_limit kind limit) = true
is_validation _ = false

abbrev pub diagnostics : BundleError → List Diagnostic
diagnostics (validation ds) = ds
diagnostics _ = []

-- `Display for BundleError`
unfoldable pub show_error : BundleError → Message
show_error (validation ds) = text "bundle validation failed" ∷ []
show_error (manifest path message) =
    text "failed to parse manifest " ∷ text path ∷ text ": " ∷ message
show_error (json path message) = text "failed to parse JSON " ∷ text path ∷ text ": " ∷ message
show_error (io path source) = text "filesystem error for " ∷ text path ∷ text ": " ∷ source
show_error (key message) = text "key error: " ∷ message
show_error signing_key_password_required =
    text "the signing key is encrypted and requires a password" ∷ []
show_error (archive message) = text "invalid bundle archive: " ∷ message
show_error (size_limit kind limit) =
    text "bundle "
    ∷ text kind
    ∷ text " size exceeds the configured limit of "
    ∷ number limit
    ∷ text " bytes"
    ∷ []
show_error (serialization message) = text "serialization failed: " ∷ message

-- Rust's `Result<A, E>`.
pub data Result {ℓ κ} (E : Type ℓ) (A : Type κ) : Type (ℓ ⊔ κ) where
  ok : A → Result E A
  err : E → Result E A

-- `let value = start?; ..`
infixl 5 ◌>>=◌
abbrev pub ◌>>=◌ {ℓ κ ι} :
    {E : Type ℓ} {A : Type κ} {B : Type ι} → Result E A → (A → Result E B) → Result E B
err fault >>= next = err fault
ok value >>= next = next value

-- `start?; ..`
infixl 5 ◌>>◌
abbrev pub ◌>>◌ {ℓ κ} : {E : Type ℓ} {B : Type κ} → Result E (Unit {0}) → Result E B → Result E B
start >> rest = start >>= λ done. rest

-- `map_err`
abbrev pub map_err {ℓ κ ι} :
    {E : Type ℓ} {F : Type κ} {A : Type ι} → (E → F) → Result E A → Result F A
map_err f (ok a) = ok a
map_err f (err e) = err (f e)

-- `if b { return Err(e) }`
abbrev pub refuse_if {ℓ} : {E : Type ℓ} → Bool → E → Result E (Unit {0})
refuse_if true e = err e
refuse_if false e = ok tt

-- A chain that succeeds has succeeded at each of its steps, with a value in between.
pub >>=-eq-ok {ℓ κ ι} :
    {E : Type ℓ} {A : Type κ} {B : Type ι} (start : Result E A) (next : A → Result E B) {last : B}
    → (start >>= next) ≡ ok last
    → (value : A) × (start ≡ ok value) × (next value ≡ ok last)
>>=-eq-ok (err fault) next success = cc
>>=-eq-ok (ok value) next success = (value, refl, success)

pub refuse_if-eq-ok {ℓ} :
    {E : Type ℓ} (b : Bool) (e : E) {u : Unit {0}} → refuse_if b e ≡ ok u → b ≡ false
refuse_if-eq-ok true e h = cc
refuse_if-eq-ok false e h = refl

pub ok-injective {ℓ κ} :
    {E : Type ℓ} {A : Type κ} {a b : A} → ◌≡◌ {A = Result E A} (ok a) (ok b) → a ≡ b
ok-injective h = cc

pub map_err-eq-ok {ℓ κ ι} :
    {E : Type ℓ} {F : Type κ} {A : Type ι} (f : E → F) (r : Result E A) {a : A}
    → map_err f r ≡ ok a
    → r ≡ ok a
map_err-eq-ok f (ok b) h = cc
map_err-eq-ok f (err e) h = cc
