-- ===== src/Archive/Decode.antt =====
-- `decode_archive`: the entries of an archive and their order.
use treetop_bundle.Base.{
  ℕ, suc, String, Bool, true, false, not, ◌||◌, ◌&&◌, Option, none, some, List, [], ◌∷◌, map, any,
  length, nat_beq, ltb, ◌==◌, if◌then◌else◌,
}
use treetop_bundle.Diagnostic.{Message, text, debug, say}
use treetop_bundle.Error.{
  BundleError, archive, size_limit, Result, ok, ◌>>=◌, ◌>>◌, map_err, refuse_if,
}
use treetop_bundle.FilePath.{is_absolute, components, escapes}
use treetop_bundle.Signing.Crypto.{Bytes}
use treetop_bundle.Archive.Limits.{ArchiveLimits, limit_plus_one}

-- One entry as the tar library reads it: whether its type is regular, its path, whether the path is
-- UTF-8, and its contents.
pub record TarEntry : Type 0 where
  pub regular : Bool
  pub path : Result String String
  pub is_utf8 : Bool
  pub contents : Result String Bytes

-- What the gzip and tar libraries read of some bytes under a limit: the entries, how draining the
-- rest ends, what is left of the limit then, and the position in the bytes.
pub record Reading : Type 0 where
  pub entries : Result String (List (Result String TarEntry))
  pub drained : Result String (Unit {0})
  pub remaining : ℕ
  pub position : ℕ

-- The tar and gzip libraries; `tar` writes regular files with the fixed header of
-- `append_tar_file`, and `gzip` without a time stamp.
pub record Codec : Type 0 where
  pub read : Bytes → ℕ → Reading
  pub tar : List (String × Bytes) → Result String Bytes
  pub gzip : Bytes → Result String Bytes

abbrev pub manifest_path : String
manifest_path = "manifest.json"

abbrev pub signature_path : String
signature_path = "signature.json"

abbrev pub policies_path : String
policies_path = "policies.cedar"

abbrev pub schema_path : String
schema_path = "schema.json"

abbrev pub labels_path : String
labels_path = "labels.json"

pub record DecodedArchive : Type 0 where
  pub manifest : Bytes
  pub signature : Option Bytes
  pub policies : Bytes
  pub schema : Option Bytes
  pub labels : Bytes

unfoldable pub unsafe_path : String → Bool
unsafe_path path =
    is_absolute path
    || (not (nat_beq (length (components path)) 1) || any escapes (components path))

-- One round of the loop over the entries, where so many have been read.
unfoldable pub read_entry : ℕ → Result String TarEntry → Result BundleError (String × Bytes)
unfolding unsafe_path
read_entry count item = do
  entry ← map_err (λ e. archive (text "tar entry is invalid: " ∷ text e ∷ [])) item
  refuse_if (nat_beq count 5) (archive (say "bundle archive contains more than five entries"))
  refuse_if (not entry.regular) (archive (say "only regular tar entries are allowed"))
  path ← map_err (λ e. archive (text "invalid tar path: " ∷ text e ∷ [])) entry.path
  refuse_if (unsafe_path path) (archive (text "unsafe tar entry path " ∷ text path ∷ []))
  refuse_if (not entry.is_utf8) (archive (say "tar path is not UTF-8"))
  contents ← map_err (λ e. archive (text "cannot read tar entry: " ∷ text e ∷ [])) entry.contents
  ok (path, contents)

unfoldable pub read_entries :
    ℕ → List (Result String TarEntry) → Result BundleError (List (String × Bytes))
unfolding read_entry
read_entries count [] = ok []
read_entries count (item ∷ items) = do
  entry ← read_entry count item
  rest ← read_entries (suc count) items
  ok (entry ∷ rest)

unfoldable pub same_texts : List String → List String → Bool
same_texts [] [] = true
same_texts [] (t ∷ ts) = false
same_texts (s ∷ ss) [] = false
same_texts (s ∷ ss) (t ∷ ts) = s == t && same_texts ss ts

-- The four orders of the entries.
abbrev pub orders : List (List String)
orders =
    (manifest_path ∷ policies_path ∷ labels_path ∷ [])
    ∷ (manifest_path ∷ policies_path ∷ schema_path ∷ labels_path ∷ [])
    ∷ (manifest_path ∷ signature_path ∷ policies_path ∷ labels_path ∷ [])
    ∷ (manifest_path ∷ signature_path ∷ policies_path ∷ schema_path ∷ labels_path ∷ [])
    ∷ []

abbrev pub entry_name : String × Bytes → String
entry_name e = e.0

-- `by_name.remove(name)`; the names are distinct.
unfoldable pub entry_named : String → List (String × Bytes) → Option Bytes
entry_named name [] = none
entry_named name (e ∷ entries) = if name == e.0 then some e.1 else entry_named name entries

-- A decoded archive, or a panic of one of the three `expect`s.
pub data Decoded : Type 0 where
  panics : Decoded
  decoded : DecodedArchive → Decoded

unfoldable pub expect_all :
    Option Bytes → Option Bytes → Option Bytes → Option Bytes → Option Bytes → Decoded
expect_all (some manifest) signature (some policies) schema (some labels) = decoded (record {
  manifest = manifest;
  signature = signature;
  policies = policies;
  schema = schema;
  labels = labels;
})
expect_all (some manifest) signature (some policies) schema none = panics
expect_all (some manifest) signature none schema labels = panics
expect_all none signature policies schema labels = panics

unfoldable pub by_name : List (String × Bytes) → Decoded
unfolding expect_all entry_named
by_name entries =
    expect_all (entry_named manifest_path entries) (entry_named signature_path entries)
      (entry_named policies_path entries) (entry_named schema_path entries)
      (entry_named labels_path entries)

debug_all : List String → Message
debug_all [] = []
debug_all (s ∷ ss) = debug s ∷ debug_all ss

-- The order of the entries, and the archive that they make.
unfoldable pub arrange : List (String × Bytes) → Result BundleError Decoded
unfolding by_name same_texts debug_all
arrange entries = do
  let names = map entry_name entries
  refuse_if (not (any (same_texts names) orders)) (
      archive (
        text "archive entries are missing, unknown, duplicated, or out of order: "
        ∷ debug_all names))
  ok (by_name entries)

-- `decode_archive`
unfoldable pub decode_archive : Codec → Bytes → ArchiveLimits → Result BundleError Decoded
unfolding read_entries arrange limit_plus_one
decode_archive codec bytes limits = do
  refuse_if (ltb limits.max_compressed_bytes (length bytes))
      (size_limit "compressed" limits.max_compressed_bytes)
  limit ← limit_plus_one limits.max_uncompressed_bytes "uncompressed"
  let reading = codec.read bytes limit
  items ← map_err (λ e. archive (text "tar decoding failed: " ∷ text e ∷ [])) reading.entries
  entries ← read_entries 0 items
  map_err (λ e. archive (text "gzip decoding failed: " ∷ text e ∷ [])) reading.drained
  refuse_if (nat_beq reading.remaining 0) (size_limit "uncompressed" limits.max_uncompressed_bytes)
  refuse_if (not (nat_beq reading.position (length bytes)))
      (archive (say "concatenated gzip members or trailing bytes are not allowed"))
  arrange entries
