-- ===== src/Signing/Trust.antt =====
-- `TrustStore`: trusted keys by their identifiers, a map kept as a list of entries.
use treetop_bundle.Base.{
  String, Bool, true, false, ◌&&◌, Option, none, some, List, [], ◌∷◌, ◌++◌, ◌==◌, nat_beq,
  if◌then◌else◌,
}
use treetop_bundle.Diagnostic.{text, say}
use treetop_bundle.Error.{BundleError, archive, key, Result, ok, err, ◌>>=◌, ◌>>◌}
use treetop_bundle.Signing.Crypto.{
  Bytes, Crypto, BundleSignature, TrustedKey, signed_message, decode_signature, validate_format,
}

-- Equality of `[u8; 32]`.
unfoldable pub same_bytes : Bytes → Bytes → Bool
same_bytes [] [] = true
same_bytes [] (b ∷ bs) = false
same_bytes (a ∷ as') [] = false
same_bytes (a ∷ as') (b ∷ bs) = nat_beq a b && same_bytes as' bs

module _ (K : Crypto) where
  abbrev pub TrustStore : Type 0
  TrustStore = List (String × TrustedKey K)

  -- `self.0.get(key_id)`
  unfoldable pub find_key : String → TrustStore → Option (TrustedKey K)
  find_key id [] = none
  find_key id ((j, k) ∷ store) = if j == id then some k else find_key id store

  unfoldable pub insert_found :
      TrustedKey K → TrustStore → Option (TrustedKey K) → Result BundleError TrustStore
  unfolding same_bytes
  insert_found k store none = ok (store ++ ((k.id, k) ∷ []))
  insert_found k store (some existing) =
      if same_bytes (K.key_bytes existing.key) (K.key_bytes k.key)
      then ok store
      else err
          (key (text "duplicate key ID " ∷ text k.id ∷ text " has different public key bytes" ∷ []))

  -- `TrustStore::insert`
  unfoldable pub insert : TrustedKey K → TrustStore → Result BundleError TrustStore
  unfolding find_key insert_found
  insert k store = insert_found k store (find_key k.id store)

  unfoldable pub insert_all : List (TrustedKey K) → TrustStore → Result BundleError TrustStore
  unfolding insert
  insert_all [] store = ok store
  insert_all (k ∷ ks) store = do store' ← insert k store; insert_all ks store'

  -- `TrustStore::from_keys`
  unfoldable pub from_keys : List (TrustedKey K) → Result BundleError TrustStore
  unfolding insert_all
  from_keys keys = insert_all keys []

  -- `TrustedKey::verify`
  unfoldable pub verify_key : TrustedKey K → Bytes → K.Signature → Result BundleError (Unit {0})
  unfolding signed_message
  verify_key k manifest signature =
      if K.verify_strict k.key (signed_message K manifest) signature
      then ok tt
      else err (archive (say "invalid_signature"))

  unfoldable pub find_or_error : String → TrustStore → Result BundleError (TrustedKey K)
  unfolding find_key
  find_or_error id store = elim (find_key id store) [
    | none ↦ err (archive (say "untrusted_key"))
    | some k ↦ ok k
  ]

  -- `TrustStore::verify`
  unfoldable pub verify : TrustStore → Bytes → BundleSignature → Result BundleError String
  unfolding find_or_error verify_key validate_format
  verify store manifest s = do
    validate_format K s
    k ← find_or_error s.key_id store
    signature ← decode_signature K s.signature
    verify_key k manifest signature
    ok k.id
