-- ===== src/Signing/Keys.antt =====
-- `SigningKey`: private keys in PKCS#8 documents and in files that others cannot read.
use Prim.Native.Nat.{bit_and}
use treetop_bundle.Base.{
  ℕ, ◌+◌, ◌*◌, String, Bool, not, [], ◌∷◌, nat_beq, ltb, length, ◌==◌, if◌then◌else◌,
}
use treetop_bundle.Diagnostic.{text, debug, number, say}
use treetop_bundle.Error.{
  BundleError, io, key, signing_key_password_required, Result, ok, err, ◌>>=◌, ◌>>◌, map_err,
  refuse_if,
}
use treetop_bundle.FileSystem.{Files}
use treetop_bundle.Host.{Host}
use treetop_bundle.Signing.Crypto.{Bytes, Crypto, TrustedKey, trusted_from_pem}

abbrev pub private_key_label : String
private_key_label = "PRIVATE KEY"

abbrev pub encrypted_private_key_label : String
encrypted_private_key_label = "ENCRYPTED PRIVATE KEY"

abbrev pub max_private_key_bytes : ℕ
max_private_key_bytes = 1024 * 1024

-- The PKCS#8 libraries: the label and the bytes of a PEM document, and the two decoders.
pub record KeyDecoder (K : Crypto) : Type 0 where
  -- `SecretDocument::from_pem`
  pub from_pem : String → Result String (String × Bytes)
  -- `from_pkcs8_der`, `from_pkcs8_encrypted_der`
  pub from_der : Bytes → Result String K.SecretKey
  pub from_encrypted_der : Bytes → Bytes → Result String K.SecretKey

pub data PrivateKeyDocument : Type 0 where
  unencrypted encrypted : Bytes → PrivateKeyDocument

unfoldable pub labelled_document : String → Bytes → Result BundleError PrivateKeyDocument
labelled_document label document =
    if label == encrypted_private_key_label
    then ok (encrypted document)
    else if label == private_key_label
    then ok (unencrypted document)
    else err (key (text "invalid PKCS#8 private key PEM label " ∷ debug label ∷ []))

-- Group or others may access the file: `mode & 0o077 != 0`.
unfoldable pub is_shared : ℕ → Bool
is_shared mode = not (nat_beq (bit_and mode 63) 0)

-- `read_private_key` on Unix.
unfoldable pub read_private_key : Host → Files → String → Result BundleError String
unfolding is_shared
read_private_key host F path = do
  file ← map_err (λ e. io path (say e)) (F.open_file path)
  metadata ← map_err (λ e. io path (say e)) file.metadata
  refuse_if (not metadata.is_file)
      (key (text "private key path " ∷ text path ∷ text " is not a regular file" ∷ []))
  refuse_if (is_shared metadata.mode)
      (key (text "private key file " ∷ text path ∷ text " is accessible by group or others" ∷ []))
  refuse_if (ltb max_private_key_bytes metadata.len) (
      key (
        text "private key file "
        ∷ text path
        ∷ text " exceeds "
        ∷ number max_private_key_bytes
        ∷ text " bytes"
        ∷ []))
  bytes ← map_err (λ e. io path (say e)) (file.read_up_to (max_private_key_bytes + 1))
  pem ← map_err (λ e. io path (say e)) (host.from_utf8 bytes)
  refuse_if (ltb max_private_key_bytes (length bytes)) (
      key (
        text "private key file "
        ∷ text path
        ∷ text " exceeds "
        ∷ number max_private_key_bytes
        ∷ text " bytes"
        ∷ []))
  ok pem

module _ (K : Crypto) (D : KeyDecoder K) where
  -- `parse_private_key_pem`
  unfoldable pub parse_private_key_pem : String → Result BundleError PrivateKeyDocument
  unfolding labelled_document
  parse_private_key_pem pem = do
    parsed ←
        map_err (λ e. key (text "invalid PKCS#8 private key PEM: " ∷ text e ∷ [])) (D.from_pem pem)
    labelled_document parsed.0 parsed.1

  -- `SigningKey::from_pkcs8_document`
  unfoldable pub from_pkcs8_document : Bytes → Result BundleError K.SecretKey
  from_pkcs8_document document =
      map_err (λ e. key (text "invalid PKCS#8 Ed25519 private key: " ∷ text e ∷ []))
        (D.from_der document)

  -- `SigningKey::from_pkcs8_encrypted_document`
  unfoldable pub from_pkcs8_encrypted_document : Bytes → Bytes → Result BundleError K.SecretKey
  from_pkcs8_encrypted_document document password =
      map_err (λ e. key (text "invalid encrypted PKCS#8 Ed25519 private key: " ∷ text e ∷ []))
        (D.from_encrypted_der document password)

  unfoldable pub unencrypted_key : PrivateKeyDocument → Result BundleError K.SecretKey
  unfolding from_pkcs8_document
  unencrypted_key (unencrypted document) = from_pkcs8_document document
  unencrypted_key (encrypted document) = err signing_key_password_required

  unfoldable pub encrypted_key : Bytes → PrivateKeyDocument → Result BundleError K.SecretKey
  unfolding from_pkcs8_encrypted_document
  encrypted_key password (encrypted document) = from_pkcs8_encrypted_document document password
  encrypted_key password (unencrypted document) = err (
      key (
        text "invalid encrypted PKCS#8 Ed25519 private key: expected "
        ∷ debug encrypted_private_key_label
        ∷ text " PEM label"
        ∷ []))

  unfoldable pub either_key : Bytes → PrivateKeyDocument → Result BundleError K.SecretKey
  unfolding from_pkcs8_document from_pkcs8_encrypted_document
  either_key password (encrypted document) = from_pkcs8_encrypted_document document password
  either_key password (unencrypted document) = from_pkcs8_document document

  -- `SigningKey::from_pkcs8_pem`
  unfoldable pub from_pkcs8_pem : String → Result BundleError K.SecretKey
  unfolding parse_private_key_pem unencrypted_key
  from_pkcs8_pem pem = parse_private_key_pem pem >>= unencrypted_key

  -- `SigningKey::from_pkcs8_encrypted_pem`
  unfoldable pub from_pkcs8_encrypted_pem : String → Bytes → Result BundleError K.SecretKey
  unfolding parse_private_key_pem encrypted_key
  from_pkcs8_encrypted_pem pem password = parse_private_key_pem pem >>= encrypted_key password

  -- `SigningKey::from_pkcs8_pem_with_password`
  unfoldable pub from_pkcs8_pem_with_password : String → Bytes → Result BundleError K.SecretKey
  unfolding parse_private_key_pem either_key
  from_pkcs8_pem_with_password pem password = parse_private_key_pem pem >>= either_key password

  module _ (host : Host) (F : Files) where
    -- `SigningKey::from_pkcs8_pem_file`
    unfoldable pub from_pkcs8_pem_file : String → Result BundleError K.SecretKey
    unfolding read_private_key from_pkcs8_pem
    from_pkcs8_pem_file path = read_private_key host F path >>= from_pkcs8_pem

    -- `SigningKey::from_pkcs8_encrypted_pem_file`
    unfoldable pub from_pkcs8_encrypted_pem_file : String → Bytes → Result BundleError K.SecretKey
    unfolding read_private_key from_pkcs8_encrypted_pem
    from_pkcs8_encrypted_pem_file path password = do
      pem ← read_private_key host F path
      from_pkcs8_encrypted_pem pem password

    -- `SigningKey::from_pkcs8_pem_file_with_password`
    unfoldable pub from_pkcs8_pem_file_with_password :
        String → Bytes → Result BundleError K.SecretKey
    unfolding read_private_key from_pkcs8_pem_with_password
    from_pkcs8_pem_file_with_password path password = do
      pem ← read_private_key host F path
      from_pkcs8_pem_with_password pem password

-- `TrustedKey::from_spki_pem_file`
unfoldable pub trusted_from_pem_file :
    (K : Crypto) → Files → String → Result BundleError (TrustedKey K)
unfolding trusted_from_pem
trusted_from_pem_file K F path = do
  pem ← map_err (λ e. io path (say e)) (F.read_to_string path)
  trusted_from_pem K pem
