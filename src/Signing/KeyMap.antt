-- ===== src/Signing/KeyMap.antt =====
-- The trust store as a map from key identifiers to the bytes of public keys.
use treetop_bundle.Signing.Inserted.{find_key-append_other, find_key-append_new}
use treetop_bundle.Signing.Trust.{
  from_keys, insert_all, insert, insert_found, find_key, TrustStore, same_bytes,
}
use treetop_bundle.Signing.Crypto.{TrustedKey, Crypto, Bytes}
use treetop_bundle.Base.{
  ◌≡◌, refl, sym, ap, subst, inl, inr, String, true, Option, none, some, List, [], ◌∷◌, ◌++◌, ◌==◌,
  eq_iff, if◌then◌else◌, Bool-cases,
}
use treetop_bundle.Error.{◌>>=◌, BundleError, Result, ok, err}

-- A map that promises nothing of an order.
abbrev pub KeyMap : Type 0
KeyMap = String → Option Bytes

abbrev pub empty_map : KeyMap
empty_map id = none

abbrev pub set : String → Bytes → KeyMap → KeyMap
set id bytes m other = if id == other then some bytes else m other

-- An identifier takes bytes once; the same bytes again change nothing, and other bytes are refused.
abbrev pub add_found : String → Bytes → KeyMap → Option Bytes → Option KeyMap
add_found id bytes m none = some (set id bytes m)
add_found id bytes m (some held) = if same_bytes held bytes then some m else none

abbrev pub add : String → Bytes → KeyMap → Option KeyMap
add id bytes m = add_found id bytes m (m id)

module _ (K : Crypto) where
  abbrev pub bytes_of : Option (TrustedKey K) → Option Bytes
  bytes_of none = none
  bytes_of (some k) = some (K.key_bytes k.key)

  -- What a store stands for.
  abbrev pub map_of : TrustStore K → KeyMap
  map_of store id = bytes_of (find_key K id store)

  abbrev pub result_map : Result BundleError (TrustStore K) → Option KeyMap
  result_map (ok store) = some (map_of store)
  result_map (err e) = none

  abbrev and_then : (KeyMap → Option KeyMap) → Option KeyMap → Option KeyMap
  and_then next none = none
  and_then next (some m) = next m

  -- The keys added one after the other.
  abbrev pub add_all : List (TrustedKey K) → KeyMap → Option KeyMap
  add_all [] m = some m
  add_all (k ∷ ks) m = and_then (add_all ks) (add k.id (K.key_bytes k.key) m)

  find_key-append :
      (k : TrustedKey K) (other : String) (store : TrustStore K)
      → find_key K k.id store ≡ none
      → bytes_of (find_key K other (store ++ ((k.id, k) ∷ [])))
        ≡ set k.id (K.key_bytes k.key) (map_of store) other
  find_key-append k other store h = elim (Bool-cases (k.id == other)) [
    | inl same ↦ rw same (
        subst (λ o. bytes_of (find_key K o (store ++ ((k.id, k) ∷ []))) ≡ some (K.key_bytes k.key))
          ((eq_iff k.id other).0 same) (ap bytes_of (find_key-append_new K store k h)))
    | inr differs ↦ rw differs (
        ap bytes_of (
          find_key-append_other K other store k
            (λ e. let same : (k.id == other) ≡ true = (eq_iff k.id other).1 (sym e) in absurd cc)))
  ]

  insert_found-refines :
      (k : TrustedKey K) (store : TrustStore K) (found : Option (TrustedKey K))
      → find_key K k.id store ≡ found
      → result_map (insert_found K k store found)
        ≡ add_found k.id (K.key_bytes k.key) (map_of store) (bytes_of found)
  unfolding insert_found
  insert_found-refines k store none h = ap some (λ i other. find_key-append k other store h i)
  insert_found-refines k store (some held) h =
      elim (Bool-cases (same_bytes (K.key_bytes held.key) (K.key_bytes k.key))) [
        | inl same ↦ rw same refl
        | inr differs ↦ rw differs refl
      ]

  insert-refines :
      (k : TrustedKey K) (store : TrustStore K)
      → result_map (insert K k store) ≡ add k.id (K.key_bytes k.key) (map_of store)
  unfolding insert
  insert-refines k store = insert_found-refines k store (find_key K k.id store) refl

  all_refine :
      (ks : List (TrustedKey K)) (start : Result BundleError (TrustStore K)) (m : Option KeyMap)
      → ((store : TrustStore K) → result_map (insert_all K ks store) ≡ add_all ks (map_of store))
      → result_map start ≡ m
      → result_map (start >>= insert_all K ks) ≡ and_then (add_all ks) m
  all_refine ks (ok store) m rest h =
      subst (λ x. result_map (insert_all K ks store) ≡ and_then (add_all ks) x) h (rest store)
  all_refine ks (err e) m rest h = subst (λ x. none ≡ and_then (add_all ks) x) h refl

  insert_all-refines :
      (ks : List (TrustedKey K)) (store : TrustStore K)
      → result_map (insert_all K ks store) ≡ add_all ks (map_of store)
  unfolding insert_all
  insert_all-refines [] store = refl
  insert_all-refines (k ∷ ks) store =
      all_refine ks (insert K k store) (add k.id (K.key_bytes k.key) (map_of store))
        (insert_all-refines ks) (insert-refines k store)

  -- A trust store refines a map from identifiers to the bytes of keys: `from_keys` gives the map to
  -- which the keys were added one after the other, and refuses exactly the keys that the map
  -- refuses.
  pub from_keys-refines :
      (ks : List (TrustedKey K)) → result_map (from_keys K ks) ≡ add_all ks empty_map
  unfolding from_keys
  from_keys-refines ks = insert_all-refines ks []
