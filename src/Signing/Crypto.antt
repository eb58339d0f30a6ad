-- ===== src/Signing/Crypto.antt =====
-- What the program takes from the cryptographic libraries, and the signatures that it makes.
use Prim.Native.Nat.{◌/◌, ◌%◌}
use Prim.Native.Char.{Char, code}
use treetop_bundle.Base.{
  ℕ, String, ◌≡◌, Bool, true, not, List, [], ◌∷◌, ◌++◌, nat_beq, ◌==◌, if◌then◌else◌,
}
use treetop_bundle.Diagnostic.{text, debug, number, say}
use treetop_bundle.Error.{BundleError, archive, key, Result, ok, ◌>>=◌, ◌>>◌, map_err, refuse_if}
use treetop_bundle.Manifest.Module.{supported_version}

abbrev pub Bytes : Type 0
Bytes = List ℕ

-- The bytes of an ASCII text.
unfoldable pub ascii : String → Bytes
ascii String.[] = []
ascii (String.◌∷◌ c s) = code c ∷ ascii s

-- `SIGNATURE_DOMAIN`
unfoldable pub signature_domain : Bytes
unfolding ascii
signature_domain = ascii "treetop-bundle-signature-v1" ++ (0 ∷ [])

hex_digit : ℕ → Char
hex_digit n =
    if nat_beq n 0
    then "0"
    else if nat_beq n 1
    then "1"
    else if nat_beq n 2
    then "2"
    else if nat_beq n 3
    then "3"
    else if nat_beq n 4
    then "4"
    else if nat_beq n 5
    then "5"
    else if nat_beq n 6
    then "6"
    else if nat_beq n 7
    then "7"
    else if nat_beq n 8
    then "8"
    else if nat_beq n 9
    then "9"
    else if nat_beq n 10
    then "a"
    else if nat_beq n 11
    then "b"
    else if nat_beq n 12
    then "c"
    else if nat_beq n 13
    then "d"
    else if nat_beq n 14
    then "e"
    else "f"

-- `format!("{byte:02x}")` of each byte
unfoldable pub hex : Bytes → String
unfolding hex_digit
hex [] = ""
hex (b ∷ bs) = String.◌∷◌ (hex_digit (b / 16)) (String.◌∷◌ (hex_digit (b % 16)) (hex bs))

-- The cryptographic libraries, with the texts of their errors.
pub record Crypto : Type 1 where
  pub Signature : Type 0
  pub VerifyingKey : Type 0
  pub SecretKey : Type 0
  pub sha256 : Bytes → Bytes
  -- `STANDARD.encode`, `STANDARD.decode`
  pub base64_encode : Bytes → String
  pub base64_decode : String → Result String Bytes
  -- `Signature::from_slice`, `to_bytes`
  pub signature_from_slice : Bytes → Result String Signature
  pub signature_bytes : Signature → Bytes
  -- `sign`, `verify_strict`, `verifying_key`, `to_bytes`, `is_weak`
  pub sign : SecretKey → Bytes → Signature
  pub verify_strict : VerifyingKey → Bytes → Signature → Bool
  pub verifying_key : SecretKey → VerifyingKey
  pub key_bytes : VerifyingKey → Bytes
  pub is_weak : VerifyingKey → Bool
  -- `VerifyingKey::from_public_key_pem`
  pub key_from_pem : String → Result String VerifyingKey

-- What the libraries document: decoding undoes encoding, and a key verifies its signatures.
pub record IsSound (K : Crypto) : Type 0 where
  pub decode_encode : (b : Bytes) → K.base64_decode (K.base64_encode b) ≡ ok b
  pub slice_bytes : (s : K.Signature) → K.signature_from_slice (K.signature_bytes s) ≡ ok s
  pub verify_sign :
      (k : K.SecretKey) (m : Bytes) → K.verify_strict (K.verifying_key k) m (K.sign k m) ≡ true

-- `BundleSignature`
pub record BundleSignature : Type 0 where
  pub format_version : ℕ
  pub algorithm : String
  pub key_id : String
  pub signature : String

module _ (K : Crypto) where
  -- `key_id`
  unfoldable pub key_id : K.VerifyingKey → String
  unfolding hex
  key_id public = hex (K.sha256 (K.key_bytes public))

  unfoldable pub signed_message : Bytes → Bytes
  unfolding signature_domain
  signed_message manifest = signature_domain ++ manifest

  -- `SigningKey::sign_manifest`
  unfoldable pub sign_manifest : K.SecretKey → Bytes → BundleSignature
  unfolding key_id signed_message
  sign_manifest k manifest = record {
    format_version = supported_version;
    algorithm = "ed25519";
    key_id = key_id (K.verifying_key k);
    signature = K.base64_encode (K.signature_bytes (K.sign k (signed_message manifest)));
  }

  -- The base64 and Ed25519 decoding that `validate_format` and `verify` both make.
  unfoldable pub decode_signature : String → Result BundleError K.Signature
  decode_signature encoded = do
    bytes ←
        map_err (λ e. archive (text "signature is not standard base64: " ∷ text e ∷ []))
          (K.base64_decode encoded)
    map_err (λ e. archive (text "malformed Ed25519 signature: " ∷ text e ∷ []))
        (K.signature_from_slice bytes)

  -- `BundleSignature::validate_format`
  unfoldable pub validate_format : BundleSignature → Result BundleError (Unit {0})
  validate_format s = do
    refuse_if (not (nat_beq s.format_version supported_version))
        (archive (text "unsupported signature format version " ∷ number s.format_version ∷ []))
    refuse_if (not (s.algorithm == "ed25519"))
        (archive (text "unsupported signature algorithm " ∷ debug s.algorithm ∷ []))
    _ ← decode_signature s.signature
    ok tt

  -- `TrustedKey`
  pub record TrustedKey : Type 0 where
    pub id : String
    pub key : K.VerifyingKey

  -- `TrustedKey::from_spki_pem`
  unfoldable pub trusted_from_pem : String → Result BundleError TrustedKey
  trusted_from_pem pem = do
    public ←
        map_err (λ e. key (text "invalid SPKI Ed25519 public key: " ∷ text e ∷ []))
          (K.key_from_pem pem)
    refuse_if (K.is_weak public) (key (say "weak Ed25519 public keys are not accepted"))
    ok (record { id = key_id public; key = public })
