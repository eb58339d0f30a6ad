-- ===== src/Examples/Keys.antt =====
-- Cryptography in miniature: it keeps the promises of the libraries.
use Prim.Native.Char.{code}
use treetop_bundle.Base.{
  ℕ, zero, suc, ◌+◌, String, ◌≡◌, refl, ap, false, some, List, [], ◌∷◌, arith, nat_beq,
  if◌then◌else◌,
}
use treetop_bundle.Error.{ok}
use treetop_bundle.Signing.Crypto.{Crypto, IsSound, BundleSignature, TrustedKey, key_id}
use treetop_bundle.Signing.Inserted.{same_bytes_refl}
use treetop_bundle.Signing.Trust.{TrustStore, same_bytes, find_key}

-- A number in unary, closed by `b`.
abbrev pub tally : ℕ → String → String
tally zero rest = String.◌∷◌ "b" rest
tally (suc n) rest = String.◌∷◌ "a" (tally n rest)

abbrev pub encode_tally : List ℕ → String
encode_tally [] = ""
encode_tally (n ∷ ns) = tally n (encode_tally ns)

abbrev pub decode_tally : ℕ → String → List ℕ
decode_tally met String.[] = []
decode_tally met (String.◌∷◌ c s) =
    if nat_beq (code c) 98 then met ∷ decode_tally 0 s else decode_tally (suc met) s

pub decode_tally-tally :
    (met n : ℕ) (rest : String) → decode_tally met (tally n rest) ≡ (met + n) ∷ decode_tally 0 rest
decode_tally-tally met zero rest = ground arith
decode_tally-tally met (suc n) rest = ground (arith, decode_tally-tally (suc met) n rest)

pub decode_tally-encode_tally : (ns : List ℕ) → decode_tally 0 (encode_tally ns) ≡ ns
decode_tally-encode_tally [] = refl
decode_tally-encode_tally (n ∷ ns) =
    ground (arith, decode_tally-tally 0 n (encode_tally ns), decode_tally-encode_tally ns)

-- A key's signature of a message is the message.
abbrev pub example_crypto : Crypto
example_crypto = record {
  Signature = List ℕ;
  VerifyingKey = Unit;
  SecretKey = Unit;
  sha256 = λ bytes. 16 ∷ [];
  base64_encode = encode_tally;
  base64_decode = λ text. ok (decode_tally 0 text);
  signature_from_slice = λ bytes. ok bytes;
  signature_bytes = λ signature. signature;
  sign = λ k message. message;
  verify_strict = λ k message signature. same_bytes message signature;
  verifying_key = λ k. tt;
  key_bytes = λ k. [];
  is_weak = λ k. false;
  key_from_pem = λ pem. ok tt;
}

pub example_crypto-IsSound : IsSound example_crypto
example_crypto-IsSound = record {
  decode_encode = λ b. ap ok (decode_tally-encode_tally b);
  slice_bytes = λ s. refl;
  verify_sign = λ k m. same_bytes_refl m;
}

abbrev pub example_trusted : TrustedKey example_crypto
example_trusted = record { id = "10"; key = tt }

abbrev pub example_store : TrustStore example_crypto
example_store = ("10", example_trusted) ∷ []

abbrev pub example_signature : BundleSignature
example_signature = record {
  format_version = 2;
  algorithm = "ed25519";
  key_id = "10";
  signature = "aab";
}

pub example_key-found :
    find_key example_crypto (key_id example_crypto (example_crypto.verifying_key tt)) example_store
    ≡ some example_trusted
unfolding find_key key_id
example_key-found = refl
