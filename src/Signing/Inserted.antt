-- ===== src/Signing/Inserted.antt =====
-- What `TrustStore::insert` changes and keeps.
use treetop_bundle.Base.{
  String, ◌≡◌, ◌≢◌, refl, true, Option, none, some, [], ◌∷◌, ◌++◌, arith, eq_iff, subst, Bool-cases,
  inl, inr,
}
use treetop_bundle.Error.{BundleError, ok, ok-injective}
use treetop_bundle.Signing.Crypto.{Bytes, Crypto, TrustedKey}
use treetop_bundle.Signing.Trust.{TrustStore, same_bytes, find_key, insert_found, insert}

pub same_bytes_refl : (bytes : Bytes) → same_bytes bytes bytes ≡ true
unfolding same_bytes
same_bytes_refl [] = refl
same_bytes_refl (b ∷ bytes) = ground (arith, same_bytes_refl bytes)

module _ (K : Crypto) where
  pub find_key-append_other :
      (id : String) (store : TrustStore K) (k : TrustedKey K)
      → id ≢ k.id
      → find_key K id (store ++ ((k.id, k) ∷ [])) ≡ find_key K id store
  unfolding find_key
  find_key-append_other id [] k other = ground (arith, eq_iff k.id id, other)
  find_key-append_other id (e ∷ store) k other =
      ground (arith, find_key-append_other id store k other)

  pub find_key-append_new :
      (store : TrustStore K) (k : TrustedKey K)
      → find_key K k.id store ≡ none
      → find_key K k.id (store ++ ((k.id, k) ∷ [])) ≡ some k
  unfolding find_key
  find_key-append_new [] k h = ground (arith, eq_iff k.id k.id)
  find_key-append_new (e ∷ store) k h = ground (arith, find_key-append_new store k)

  -- The store after a key was inserted.
  pub record IsInserted (k : TrustedKey K) (store store' : TrustStore K) : Type 0 where
    pub others : (id : String) → id ≢ k.id → find_key K id store' ≡ find_key K id store
    pub held : TrustedKey K
    pub found : find_key K k.id store' ≡ some held
    pub same : same_bytes (K.key_bytes held.key) (K.key_bytes k.key) ≡ true

  insert_found-IsInserted :
      (k : TrustedKey K) (store store' : TrustStore K) (r : Option (TrustedKey K))
      → find_key K k.id store ≡ r
      → insert_found K k store r ≡ ok store'
      → IsInserted k store store'
  unfolding insert_found
  insert_found-IsInserted k store store' none e h =
      subst (IsInserted k store) (ok-injective h) (record {
        others = λ id other. find_key-append_other id store k other;
        held = k;
        found = find_key-append_new store k e;
        same = same_bytes_refl (K.key_bytes k.key);
      })
  insert_found-IsInserted k store store' (some old) e h =
      elim (Bool-cases (same_bytes (K.key_bytes old.key) (K.key_bytes k.key))) [
        | inl same ↦
            subst (IsInserted k store) (ok-injective {E = BundleError} (rw same at h))
              (record { others = λ id other. refl; held = old; found = e; same = same })
        | inr differs ↦ absurd (ground (arith, h, differs))
      ]

  -- A store into which a key was inserted finds under its identifier a key of the same bytes, and
  -- finds under any other identifier what it found before.
  pub insert-IsInserted :
      (k : TrustedKey K) (store store' : TrustStore K)
      → insert K k store ≡ ok store'
      → IsInserted k store store'
  unfolding insert
  insert-IsInserted k store store' h =
      insert_found-IsInserted k store store' (find_key K k.id store) refl h
