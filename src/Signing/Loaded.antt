-- ===== src/Signing/Loaded.antt =====
-- Which files and documents give a signing key.
use Prim.Native.Nat.{ℕ, ◌%◌, bit_and}
use treetop_bundle.Base.{
  nat_beq→eq, ap, sym, bit_and-63, ◌∙◌, ◌+◌, ◌≤◌, String, ◌≡◌, ◌≢◌, ◌↔◌, ◌⊎◌, inl, inr, refl, true,
  false, not, arith, length, ltb,
}
use treetop_bundle.Error.{
  BundleError, signing_key_password_required, Result, ok, err, ◌>>=◌, >>=-eq-ok, ok-injective,
  map_err, map_err-eq-ok, refuse_if, refuse_if-eq-ok,
}
use treetop_bundle.FileSystem.{Metadata, OpenFile, Files}
use treetop_bundle.Host.{Host}
use treetop_bundle.Signing.Crypto.{Bytes, Crypto}
use treetop_bundle.Signing.Keys.{
  KeyDecoder, PrivateKeyDocument, unencrypted, encrypted, is_shared, max_private_key_bytes,
  read_private_key, parse_private_key_pem, from_pkcs8_document, unencrypted_key, encrypted_key,
  either_key, from_pkcs8_pem, from_pkcs8_encrypted_pem, from_pkcs8_pem_with_password,
}

-- A regular file that only its owner may access, since the last six binary digits of its mode, the
-- permissions of group and others, are 0. It is within the limit by its metadata and by what is read
-- of it, and its text is the PEM document.
pub record IsPrivateFile (host : Host) (F : Files) (path pem : String) : Type 0 where
  pub file : OpenFile
  pub opened : F.open_file path ≡ ok file
  pub metadata : Metadata
  pub described : file.metadata ≡ ok metadata
  pub regular : metadata.is_file ≡ true
  pub private : metadata.mode % 64 ≡ 0
  pub short : metadata.len ≤ max_private_key_bytes
  pub bytes : Bytes
  pub read : file.read_up_to (max_private_key_bytes + 1) ≡ ok bytes
  pub text : host.from_utf8 bytes ≡ ok pem
  pub whole : length bytes ≤ max_private_key_bytes

is_shared_iff : (mode : ℕ) → (is_shared mode ≡ false) ↔ (mode % 64 ≡ 0)
unfolding is_shared
is_shared_iff mode = (
  λ h. sym (bit_and-63 mode) ∙ nat_beq→eq (bit_and mode 63) 0 (ground (arith, h)),
  λ h. rw (bit_and-63 mode) (rw h refl),
)

private_of_read :
    (host : Host) (F : Files) (path pem : String)
    → read_private_key host F path ≡ ok pem
    → IsPrivateFile host F path pem
unfolding read_private_key
private_of_read host F path pem h =
    let (file, opened, h1) = >>=-eq-ok (map_err _ (F.open_file path)) _ h in
    let (metadata, described, h2) = >>=-eq-ok (map_err _ file.metadata) _ h1 in
    let (_, regular, h3) = >>=-eq-ok (refuse_if (not metadata.is_file) _) _ h2 in
    let (_, private, h4) = >>=-eq-ok (refuse_if (is_shared metadata.mode) _) _ h3 in
    let (_, short, h5) = >>=-eq-ok (refuse_if (ltb max_private_key_bytes metadata.len) _) _ h4 in
    let (bytes, read, h6) =
      >>=-eq-ok (map_err _ (file.read_up_to (max_private_key_bytes + 1))) _ h5 in
    let (pem', text, h7) = >>=-eq-ok (map_err _ (host.from_utf8 bytes)) _ h6 in
    let (_, whole, h8) = >>=-eq-ok (refuse_if (ltb max_private_key_bytes (length bytes)) _) _ h7 in
    let r : not metadata.is_file ≡ false = refuse_if-eq-ok _ _ regular in
    let s : ltb max_private_key_bytes metadata.len ≡ false = refuse_if-eq-ok _ _ short in
    let w : ltb max_private_key_bytes (length bytes) ≡ false = refuse_if-eq-ok _ _ whole in
    record {
      file = file;
      opened = map_err-eq-ok _ (F.open_file path) opened;
      metadata = metadata;
      described = map_err-eq-ok _ file.metadata described;
      regular = ground arith;
      private = (is_shared_iff metadata.mode).0 (refuse_if-eq-ok _ _ private);
      short = ground arith;
      bytes = bytes;
      read = map_err-eq-ok _ (file.read_up_to (max_private_key_bytes + 1)) read;
      text = map_err-eq-ok _ (host.from_utf8 bytes) text ∙ ap ok (ok-injective h8);
      whole = ground arith;
    }

read_of_private :
    (host : Host) (F : Files) (path pem : String)
    → IsPrivateFile host F path pem
    → read_private_key host F path ≡ ok pem
unfolding read_private_key
read_of_private host F path pem p =
    let unshared = (is_shared_iff p.metadata.mode).1 p.private in
    rw (p.opened) (
      rw (p.described)
        (rw (p.read) (rw (p.text) (ground (arith, p.regular, unshared, p.short, p.whole)))))

-- `read_private_key` gives a text exactly when the path is a regular file whose mode gives no
-- permission to group or others, no longer than the limit by its metadata and by what is read of
-- it, and the text is its content.
pub read_private_key_iff :
    (host : Host) (F : Files) (path pem : String)
    → (read_private_key host F path ≡ ok pem) ↔ IsPrivateFile host F path pem
read_private_key_iff host F path pem =
    (private_of_read host F path pem, read_of_private host F path pem)

module _ (K : Crypto) (D : KeyDecoder K) where
  -- Loading with a password is loading without one, unless that asks for a password.
  abbrev pub Agrees : Bytes → String → Type 0
  Agrees password pem =
      ((from_pkcs8_pem K D pem ≡ err signing_key_password_required)
        × (from_pkcs8_pem_with_password K D pem password
            ≡ from_pkcs8_encrypted_pem K D pem password))
      ⊎ ((from_pkcs8_pem K D pem ≢ err signing_key_password_required)
          × (from_pkcs8_pem_with_password K D pem password ≡ from_pkcs8_pem K D pem))

  from_pkcs8_document-ne :
      (document : Bytes) → from_pkcs8_document K D document ≢ err signing_key_password_required
  unfolding from_pkcs8_document
  from_pkcs8_document-ne document h = ground (arith, h)

  parse_private_key_pem-ne :
      (pem : String) → parse_private_key_pem K D pem ≢ err signing_key_password_required
  unfolding parse_private_key_pem
  parse_private_key_pem-ne pem h = ground (arith, h)

  agree_on_document :
      (password : Bytes) (r : Result BundleError PrivateKeyDocument)
      → r ≢ err signing_key_password_required
      → (((r >>= unencrypted_key K D) ≡ err signing_key_password_required)
          × ((r >>= either_key K D password) ≡ (r >>= encrypted_key K D password)))
        ⊎ (((r >>= unencrypted_key K D) ≢ err signing_key_password_required)
            × ((r >>= either_key K D password) ≡ (r >>= unencrypted_key K D)))
  unfolding unencrypted_key encrypted_key either_key
  agree_on_document password (ok (unencrypted document)) h =
      inr (from_pkcs8_document-ne document, refl)
  agree_on_document password (ok (encrypted document)) h = inl (refl, refl)
  agree_on_document password (err e) h = inr (λ asks. h (cc), refl)

  -- The decoder that is given a password does what the plain decoder does, with its errors, unless
  -- that one asks for a password; then it does what the decoder of encrypted keys does.
  pub from_pkcs8_pem_with_password-Agrees : (pem : String) (password : Bytes) → Agrees password pem
  unfolding from_pkcs8_pem from_pkcs8_encrypted_pem from_pkcs8_pem_with_password
  from_pkcs8_pem_with_password-Agrees pem password =
      agree_on_document password (parse_private_key_pem K D pem) (parse_private_key_pem-ne pem)
