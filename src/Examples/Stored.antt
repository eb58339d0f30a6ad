-- ===== src/Examples/Stored.antt =====
-- A codec that writes one archive and reads it back.
use treetop_bundle.Archive.Resigned.{resigned}
use treetop_bundle.Archive.Validate.{ValidatedBundle}
use treetop_bundle.Examples.Inputs.{example_engine, example_host}
use treetop_bundle.Examples.Bundle.{
  example_decoded, example_parts, example_reader, example_printing, example_cedar, example_writer,
}
use treetop_bundle.Examples.Keys.{example_crypto}
use treetop_bundle.Signing.Crypto.{Bytes}
use treetop_bundle.Signing.Trust.{same_bytes}
use treetop_bundle.Archive.Built.{written_archive, stored, entries_of, ReadsBack}
use treetop_bundle.Archive.Decode.{Reading, Codec, DecodedArchive}
use treetop_bundle.Base.{
  inr, inl, Bool-cases, ℕ, ◌-◌, ◌≡◌, refl, sym, subst, String, Bool, true, false, ◌&&◌, none, List,
  [], ◌∷◌, map, length, nat_beq→eq, ◌==◌, eq_iff, arith,
}
use treetop_bundle.Error.{ok-injective, Result, ok, err}

same_bytes→eq : (a b : Bytes) → same_bytes a b ≡ true → a ≡ b
unfolding same_bytes
same_bytes→eq [] [] h = refl
same_bytes→eq [] (y ∷ b) h = absurd cc
same_bytes→eq (x ∷ a) [] h = absurd cc
same_bytes→eq (x ∷ a) (y ∷ b) h =
    let e : x ≡ y = nat_beq→eq x y (ground (arith, h)) in
    let rest : a ≡ b = same_bytes→eq a b (ground (arith, h)) in cc

abbrev same_entries : List (String × Bytes) → List (String × Bytes) → Bool
same_entries [] [] = true
same_entries [] (f ∷ fs) = false
same_entries (e ∷ es) [] = false
same_entries (e ∷ es) (f ∷ fs) = e.0 == f.0 && (same_bytes e.1 f.1 && same_entries es fs)

same_entries→eq : (es fs : List (String × Bytes)) → same_entries es fs ≡ true → es ≡ fs
same_entries→eq [] [] h = refl
same_entries→eq [] (f ∷ fs) h = absurd cc
same_entries→eq (e ∷ es) [] h = absurd cc
same_entries→eq ((n, e) ∷ es) ((m, f) ∷ fs) h =
    let name : n ≡ m = (eq_iff n m).0 (ground (arith, h)) in
    let bytes : e ≡ f = same_bytes→eq e f (ground (arith, h)) in
    let rest : es ≡ fs = same_entries→eq es fs (ground (arith, h)) in cc

abbrev pub example_written : DecodedArchive
example_written =
    written_archive example_crypto example_writer example_host example_cedar example_engine
      example_printing example_reader example_parts none

abbrev pub example_entries : List (String × Bytes)
example_entries = entries_of example_crypto example_writer example_written

abbrev pub reading : List (String × Bytes) → Bytes → Bytes → ℕ → Reading
reading entries tar bytes limit = record {
  entries = ok (map stored entries);
  drained = ok tt;
  remaining = limit - length tar;
  position = length bytes;
}

abbrev pub tarred : Bool → Result String Bytes
tarred true = ok []
tarred false = err "another archive"

-- The bytes of the archive that is written are the empty ones; other bytes hold the earlier one.
abbrev pub read_stored : List (String × Bytes) → List (String × Bytes) → Bytes → ℕ → Reading
read_stored earlier later [] limit = reading later [] [] limit
read_stored earlier later (b ∷ bytes) limit = reading earlier [] (b ∷ bytes) limit

module _ (earlier later : List (String × Bytes)) where
  abbrev pub storing_codec : Codec
  storing_codec = record {
    read = read_stored earlier later;
    tar = λ entries. tarred (same_entries entries later);
    gzip = λ tar. ok [];
  }

  read_back :
      (entries : List (String × Bytes)) (tar bytes : Bytes) (limit : ℕ)
      → entries ≡ later
      → [] ≡ tar
      → [] ≡ bytes
      → read_stored earlier later bytes limit ≡ reading entries tar bytes limit
  read_back entries tar bytes limit e t b =
      subst (λ x. read_stored earlier later x limit ≡ reading entries tar x limit) b
        (subst (λ x. reading later [] [] limit ≡ reading entries x [] limit) t
          (subst (λ x. reading later [] [] limit ≡ reading x [] [] limit) (sym e) refl))

  pub storing_codec-ReadsBack : ReadsBack storing_codec
  storing_codec-ReadsBack entries tar bytes limit named t g short =
      elim (Bool-cases (same_entries entries later)) [
        | inl same ↦
            read_back entries tar bytes limit (same_entries→eq entries later same)
              (ok-injective (subst (λ b. tarred b ≡ ok tar) same t)) (ok-injective g)
        | inr other ↦
            let failed : tarred false ≡ ok tar = subst (λ b. tarred b ≡ ok tar) other t in absurd cc
      ]

-- What validation returns for the unsigned archive.
abbrev pub example_validated :
    ValidatedBundle example_host example_cedar example_engine example_printing example_crypto
      example_writer example_reader
example_validated = record {
  format_version = 2;
  bundle_id = "10";
  parts = example_parts;
  archive_sha256 = "10";
  compressed_size = 2;
  signature = record { signed = false; key_id = none };
}

-- The unsigned archive, signed.
abbrev pub example_resigned : DecodedArchive
example_resigned = resigned example_crypto example_writer tt example_decoded

abbrev pub resigning_codec : Codec
resigning_codec =
    storing_codec (entries_of example_crypto example_writer example_decoded)
      (entries_of example_crypto example_writer example_resigned)

pub resigning_codec-ReadsBack : ReadsBack resigning_codec
resigning_codec-ReadsBack =
    storing_codec-ReadsBack (entries_of example_crypto example_writer example_decoded)
      (entries_of example_crypto example_writer example_resigned)
