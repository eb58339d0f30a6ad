-- ===== src/Cli/Keys.antt =====
-- The keys of the commands and the password of the signing key.
use treetop_bundle.Host.{Host}
use treetop_bundle.FileSystem.{Files}
use treetop_bundle.Signing.Keys.{
  from_pkcs8_pem_file, from_pkcs8_pem_file_with_password, from_pkcs8_encrypted_pem_file, KeyDecoder,
  trusted_from_pem_file,
}
use treetop_bundle.Cli.World.{not_unicode, not_present, value, EnvVar, Console}
use treetop_bundle.Signing.Trust.{TrustStore, from_keys}
use treetop_bundle.Signing.Crypto.{TrustedKey, Crypto, Bytes}
use treetop_bundle.Base.{
  if◌then◌else◌, false, ℕ, ◌+◌, ◌*◌, String, Bool, Option, none, some, List, [], ◌∷◌, length, ltb,
  nat_beq,
}
use treetop_bundle.Diagnostic.{text, number, say}
use treetop_bundle.Error.{
  refuse_if, io, signing_key_password_required, err, map_err, ok, BundleError, Result, ◌>>=◌, ◌>>◌,
  key,
}

abbrev pub signing_key_password_env : String
signing_key_password_env = "TREETOP_BUNDLE_SIGNING_KEY_PASSWORD"

abbrev pub max_signing_key_password_bytes : ℕ
max_signing_key_password_bytes = 64 * 1024

-- `Vec::ends_with` of one byte, `Vec::pop`
unfoldable pub ends_with : ℕ → Bytes → Bool
ends_with b [] = false
ends_with b (x ∷ []) = nat_beq x b
ends_with b (x ∷ y ∷ ys) = ends_with b (y ∷ ys)

unfoldable pub pop : Bytes → Bytes
pop [] = []
pop (x ∷ []) = []
pop (x ∷ y ∷ ys) = x ∷ pop (y ∷ ys)

-- `trim_line_ending`
unfoldable pub trim_line_ending : Bytes → Bytes
unfolding ends_with pop
trim_line_ending bytes =
    if ends_with 10 bytes
    then if ends_with 13 (pop bytes) then pop (pop bytes) else pop bytes
    else bytes

-- The password of a file.
unfoldable pub password_of_file : Files → String → Result BundleError Bytes
unfolding trim_line_ending
password_of_file F path = do
  file ← map_err (λ e. io path (say e)) (F.open_file path)
  password ← map_err (λ e. io path (say e)) (file.read_up_to (max_signing_key_password_bytes + 1))
  refuse_if (ltb max_signing_key_password_bytes (length password)) (
      key (
        text "signing-key password file "
        ∷ text path
        ∷ text " exceeds "
        ∷ number max_signing_key_password_bytes
        ∷ text " bytes"
        ∷ []))
  ok (trim_line_ending password)

unfoldable pub password_of_variable : EnvVar → Result BundleError (Option Bytes)
password_of_variable (value password) = ok (some password)
password_of_variable not_present = ok none
password_of_variable not_unicode = err (
    key (
      text "environment variable "
      ∷ text signing_key_password_env
      ∷ text " is not valid UTF-8"
      ∷ []))

-- `configured_signing_key_password`
unfoldable pub configured_signing_key_password :
    Console → Files → Option String → Result BundleError (Option Bytes)
unfolding password_of_file password_of_variable
configured_signing_key_password console F (some path) = do
  password ← password_of_file F path
  ok (some password)
configured_signing_key_password console F none = password_of_variable console.password_variable

module _ (K : Crypto) (D : KeyDecoder K) (console : Console) (host : Host) (F : Files) where
  -- The answer to a prompt, where the key asks for a password.
  unfoldable pub prompted_key :
      String → Result BundleError K.SecretKey → Result BundleError K.SecretKey
  unfolding from_pkcs8_encrypted_pem_file
  prompted_key path (err signing_key_password_required) = do
    password ←
        map_err (λ e. key (text "failed to read signing-key password: " ∷ text e ∷ []))
          console.prompt_password
    from_pkcs8_encrypted_pem_file K D host F path password
  prompted_key path result = result

  unfoldable pub key_with_password : String → Option Bytes → Result BundleError K.SecretKey
  unfolding from_pkcs8_pem_file_with_password from_pkcs8_pem_file prompted_key
  key_with_password path (some password) =
      from_pkcs8_pem_file_with_password K D host F path password
  key_with_password path none = prompted_key path (from_pkcs8_pem_file K D host F path)

  -- `load_signing_key`
  unfoldable pub load_signing_key : String → Option String → Result BundleError K.SecretKey
  unfolding configured_signing_key_password key_with_password
  load_signing_key path password_file = do
    password ← configured_signing_key_password console F password_file
    key_with_password path password

-- `read_string`
unfoldable pub read_string : Files → String → Result BundleError String
read_string F path = map_err (λ e. io path (say e)) (F.read_to_string path)

unfoldable pub trusted_keys_of :
    (K : Crypto) → Files → List String → Result BundleError (List (TrustedKey K))
unfolding trusted_from_pem_file
trusted_keys_of K F [] = ok []
trusted_keys_of K F (path ∷ paths) = do
  k ← trusted_from_pem_file K F path
  ks ← trusted_keys_of K F paths
  ok (k ∷ ks)

-- `load_trust_store`
unfoldable pub load_trust_store :
    (K : Crypto) → Files → List String → Result BundleError (TrustStore K)
unfolding trusted_keys_of from_keys
load_trust_store K F paths = trusted_keys_of K F paths >>= from_keys K
