-- ===== src/Archive/Order.antt =====
-- The order of the entries makes every `expect` of `decode_archive` succeed.
use treetop_bundle.Base.{
  subst, leb, nat_beq→eq, ◌+◌, ◌≤◌, ℕ, String, ◌≡◌, refl, sym, true, false, not, inl, inr, some,
  List, [], ◌∷◌, arith, map, All, In→All, any, any→In, contains, nat_beq, ltb, length, eq_iff, ◌==◌,
  Bool-cases,
}
use treetop_bundle.Error.{
  Result, map_err-eq-ok, map_err, BundleError, ok, >>=-eq-ok, refuse_if, refuse_if-eq-ok,
  ok-injective,
}
use treetop_bundle.Signing.Crypto.{Bytes}
use treetop_bundle.Archive.Limits.{u64_max, ArchiveLimits, limit_plus_one}
use treetop_bundle.Archive.Decode.{
  TarEntry, Codec, DecodedArchive, Decoded, decoded, manifest_path, signature_path, policies_path,
  schema_path, labels_path, same_texts, orders, entry_name, entry_named, by_name, arrange,
  decode_archive, read_entries,
}

entry_named-found :
    (name : String) (entries : List (String × Bytes))
    → contains name (map entry_name entries) ≡ true
    → (b : Bytes) × (entry_named name entries ≡ some b)
unfolding entry_named
entry_named-found name [] h = absurd cc
entry_named-found name (e ∷ entries) h = elim (Bool-cases (name == e.0)) [
  | inl here ↦ (e.1, ground (arith, here))
  | inr later ↦
      let (b, found) = entry_named-found name entries (ground (arith, h, later)) in
      (b, ground (arith, later, found))
]

contains_of_same_texts :
    (k : String) (names order : List String)
    → same_texts names order ≡ true
    → contains k order ≡ true
    → contains k names ≡ true
unfolding same_texts
contains_of_same_texts k [] [] h m = m
contains_of_same_texts k [] (t ∷ order) h m = absurd cc
contains_of_same_texts k (s ∷ names) [] h m = absurd cc
contains_of_same_texts k (s ∷ names) (t ∷ order) h m =
    ground (arith, eq_iff s t, contains_of_same_texts k names order)

-- A name that every order has is found.
found_in_order :
    (name : String) (entries : List (String × Bytes))
    → any (same_texts (map entry_name entries)) orders ≡ true
    → All (λ order. contains name order ≡ true) orders
    → (b : Bytes) × (entry_named name entries ≡ some b)
found_in_order name entries h every =
    let (order, known, same) = any→In (same_texts (map entry_name entries)) orders h in
    entry_named-found name entries (
      contains_of_same_texts name (map entry_name entries) order same
        (In→All (λ o. contains name o ≡ true) orders every order known))

-- The fields of an archive are the contents of the entries of their names.
pub record HasFields (entries : List (String × Bytes)) (a : DecodedArchive) : Type 0 where
  pub manifest : entry_named manifest_path entries ≡ some a.manifest
  pub signature : entry_named signature_path entries ≡ a.signature
  pub policies : entry_named policies_path entries ≡ some a.policies
  pub schema : entry_named schema_path entries ≡ a.schema
  pub labels : entry_named labels_path entries ≡ some a.labels

by_name-decoded :
    (entries : List (String × Bytes))
    → any (same_texts (map entry_name entries)) orders ≡ true
    → (a : DecodedArchive) × (by_name entries ≡ decoded a) × HasFields entries a
unfolding by_name
by_name-decoded entries h =
    let (manifest, m) = found_in_order manifest_path entries h (refl, (refl, (refl, (refl, tt)))) in
    let (policies, p) = found_in_order policies_path entries h (refl, (refl, (refl, (refl, tt)))) in
    let (labels, l) = found_in_order labels_path entries h (refl, (refl, (refl, (refl, tt)))) in
    (
      record {
        manifest = manifest;
        signature = entry_named signature_path entries;
        policies = policies;
        schema = entry_named schema_path entries;
        labels = labels;
      },
      rw (m, p, l) refl,
      record { manifest = m; signature = refl; policies = p; schema = refl; labels = l },
    )

-- An archive decoded of bytes within both limits, with nothing after it.
pub record IsDecoded (codec : Codec) (bytes : Bytes) (limits : ArchiveLimits) (a : DecodedArchive)
    : Type 0 where
  pub small : length bytes ≤ limits.max_compressed_bytes
  pub limit : ℕ
  pub one_more : limit ≡ limits.max_uncompressed_bytes + 1
  pub items : List (Result String TarEntry)
  pub listed : (codec.read bytes limit).entries ≡ ok items
  pub entries : List (String × Bytes)
  pub read : read_entries 0 items ≡ ok entries
  pub within : nat_beq (codec.read bytes limit).remaining 0 ≡ false
  pub whole : (codec.read bytes limit).position ≡ length bytes
  pub ordered : any (same_texts (map entry_name entries)) orders ≡ true
  pub fields : HasFields entries a

limit_plus_one-eq-ok :
    (limit : ℕ) (kind : String) (n : ℕ) → limit_plus_one limit kind ≡ ok n → n ≡ limit + 1
unfolding limit_plus_one
limit_plus_one-eq-ok limit kind n h = elim (Bool-cases (leb (limit + 1) u64_max)) [
  | inl fits ↦ sym (ok-injective {E = BundleError} (ground (arith, h, fits)))
  | inr large ↦ absurd (ground (arith, h, large))
]

-- What `decode_archive` returns is an archive, never a panic of an `expect`: the bytes are within
-- the compressed limit, the tar content leaves some of the limit that is one over the uncompressed
-- one, nothing follows it, its entries are read in one of the four orders, and the fields of the
-- archive are the contents of the entries of their names.
pub decode_archive_total :
    (codec : Codec) (bytes : Bytes) (limits : ArchiveLimits) (result : Decoded)
    → decode_archive codec bytes limits ≡ ok result
    → (a : DecodedArchive) × (result ≡ decoded a) × IsDecoded codec bytes limits a
unfolding decode_archive arrange
decode_archive_total codec bytes limits result h =
    let (_, small, h1) =
      >>=-eq-ok (refuse_if (ltb limits.max_compressed_bytes (length bytes)) _) _ h in
    let (limit, one_more, h2) =
      >>=-eq-ok (limit_plus_one limits.max_uncompressed_bytes "uncompressed") _ h1 in
    let reading = codec.read bytes limit in
    let (items, listed, h3) = >>=-eq-ok (map_err _ reading.entries) _ h2 in
    let (entries, read, h4) = >>=-eq-ok (read_entries 0 items) _ h3 in
    let (_, _, h5) = >>=-eq-ok (map_err _ reading.drained) _ h4 in
    let (_, within, h6) = >>=-eq-ok (refuse_if (nat_beq reading.remaining 0) _) _ h5 in
    let (_, whole, h7) =
      >>=-eq-ok (refuse_if (not (nat_beq reading.position (length bytes))) _) _ h6 in
    let (_, order, h8) =
      >>=-eq-ok (refuse_if (not (any (same_texts (map entry_name entries)) orders)) _) _ h7 in
    let known : not (any (same_texts (map entry_name entries)) orders) ≡ false =
      refuse_if-eq-ok _ _ order in
    let bounded : ltb limits.max_compressed_bytes (length bytes) ≡ false =
      refuse_if-eq-ok _ _ small in
    let ended : not (nat_beq reading.position (length bytes)) ≡ false = refuse_if-eq-ok _ _ whole in
    let found : any (same_texts (map entry_name entries)) orders ≡ true = ground arith in
    let (a, e, fields) = by_name-decoded entries found in
    (
      a,
      subst (λ (r : Decoded). r ≡ decoded a) (ok-injective h8) e,
      record {
        small = ground arith;
        limit = limit;
        one_more = limit_plus_one-eq-ok limits.max_uncompressed_bytes "uncompressed" limit one_more;
        items = items;
        listed = map_err-eq-ok _ reading.entries listed;
        entries = entries;
        read = read;
        within = refuse_if-eq-ok _ _ within;
        whole = nat_beq→eq reading.position (length bytes) (ground arith);
        ordered = found;
        fields = fields;
      },
    )
