-- ===== src/Signing/Verify.antt =====
-- What verification decides, and that it accepts what a trusted key has signed.
use treetop_bundle.Base.{
  nat_beq, String, ◌≡◌, ◌↔◌, refl, true, false, not, some, ◌==◌, eq_iff, arith,
}
use treetop_bundle.Error.{refuse_if, ok, ok-injective, >>=-eq-ok, refuse_if-eq-ok}
use treetop_bundle.Manifest.Module.{supported_version}
use treetop_bundle.Signing.Crypto.{
  Bytes, Crypto, IsSound, BundleSignature, TrustedKey, key_id, signed_message, decode_signature,
  validate_format, sign_manifest,
}
use treetop_bundle.Signing.Trust.{TrustStore, find_key, find_or_error, verify_key, verify}

module _ (K : Crypto) where
  -- A signature in the supported format, by a key of the store, over the manifest.
  pub record IsVerified (store : TrustStore K) (manifest : Bytes) (s : BundleSignature)
      (id : String) : Type 0 where
    pub version : s.format_version ≡ supported_version
    pub algorithm : s.algorithm ≡ "ed25519"
    pub trusted : TrustedKey K
    pub found : find_key K s.key_id store ≡ some trusted
    pub signature : K.Signature
    pub decoded : decode_signature K s.signature ≡ ok signature
    pub accepted : K.verify_strict trusted.key (signed_message K manifest) signature ≡ true
    pub identifier : trusted.id ≡ id

  validate_format-eq-ok :
      (s : BundleSignature) {u : Unit {0}}
      → validate_format K s ≡ ok u
      → (s.format_version ≡ supported_version) × (s.algorithm ≡ "ed25519")
  unfolding validate_format
  validate_format-eq-ok s h =
      let (_, version, h1) =
        >>=-eq-ok (refuse_if (not (nat_beq s.format_version supported_version)) _) _ h in
      let (_, algorithm, _) = >>=-eq-ok (refuse_if (not (s.algorithm == "ed25519")) _) _ h1 in
      let v : not (nat_beq s.format_version supported_version) ≡ false =
        refuse_if-eq-ok _ _ version in
      let a : not (s.algorithm == "ed25519") ≡ false = refuse_if-eq-ok _ _ algorithm in
      (ground arith, (eq_iff s.algorithm "ed25519").0 (ground arith))

  find_or_error-eq-ok :
      (id : String) (store : TrustStore K) (k : TrustedKey K)
      → find_or_error K id store ≡ ok k
      → find_key K id store ≡ some k
  unfolding find_or_error
  find_or_error-eq-ok id store k h = ground arith

  verify_key-eq-ok :
      (k : TrustedKey K) (manifest : Bytes) (signature : K.Signature) {u : Unit {0}}
      → verify_key K k manifest signature ≡ ok u
      → K.verify_strict k.key (signed_message K manifest) signature ≡ true
  unfolding verify_key
  verify_key-eq-ok k manifest signature h = ground arith

  verify_of_IsVerified :
      (store : TrustStore K) (manifest : Bytes) (s : BundleSignature) (id : String)
      → IsVerified store manifest s id
      → verify K store manifest s ≡ ok id
  unfolding verify
  verify_of_IsVerified store manifest s id v = ground (
    arith,
    v.version,
    eq_iff s.algorithm "ed25519",
    v.algorithm,
    v.found,
    v.decoded,
    v.accepted,
    v.identifier,
  )

  IsVerified-of_verify :
      (store : TrustStore K) (manifest : Bytes) (s : BundleSignature) (id : String)
      → verify K store manifest s ≡ ok id
      → IsVerified store manifest s id
  unfolding verify
  IsVerified-of_verify store manifest s id h =
      let (_, format, h1) = >>=-eq-ok (validate_format K s) _ h in
      let (trusted, found, h2) = >>=-eq-ok (find_or_error K s.key_id store) _ h1 in
      let (signature, decoded, h3) = >>=-eq-ok (decode_signature K s.signature) _ h2 in
      let (_, accepted, h4) = >>=-eq-ok (verify_key K trusted manifest signature) _ h3 in
      let (version, algorithm) = validate_format-eq-ok s format in
      record {
        version = version;
        algorithm = algorithm;
        trusted = trusted;
        found = find_or_error-eq-ok s.key_id store trusted found;
        signature = signature;
        decoded = decoded;
        accepted = verify_key-eq-ok trusted manifest signature accepted;
        identifier = ok-injective h4;
      }

  -- Verification succeeds exactly when the format is supported, the store has a key with the
  -- signature's key identifier, and that key accepts the signature over the manifest.
  pub verify_iff :
      (store : TrustStore K) (manifest : Bytes) (s : BundleSignature) (id : String)
      → (verify K store manifest s ≡ ok id) ↔ IsVerified store manifest s id
  verify_iff store manifest s id =
      (IsVerified-of_verify store manifest s id, verify_of_IsVerified store manifest s id)

  -- What a key has signed verifies in every store that holds its public key under its identifier.
  pub verify-sign_manifest :
      IsSound K
      → (k : K.SecretKey) (manifest : Bytes) (store : TrustStore K) (trusted : TrustedKey K)
      → find_key K (key_id K (K.verifying_key k)) store ≡ some trusted
      → trusted.key ≡ K.verifying_key k
      → verify K store manifest (sign_manifest K k manifest) ≡ ok trusted.id
  unfolding sign_manifest decode_signature
  verify-sign_manifest sound k manifest store trusted found same =
      verify_of_IsVerified store manifest _ trusted.id (record {
        version = refl;
        algorithm = refl;
        trusted = trusted;
        found = found;
        signature = K.sign k (signed_message K manifest);
        decoded = rw (sound.decode_encode _) (rw (sound.slice_bytes _) refl);
        accepted = rw same (sound.verify_sign k _);
        identifier = refl;
      })
