-- ===== src/Examples/Disk.antt =====
-- A disk that is a list of files, the newest first: it keeps the promises of the file system.
use treetop_bundle.Examples.Inputs.{example_host}
use treetop_bundle.FileSystem.{OpenFile, Files}
use treetop_bundle.Signing.Crypto.{Bytes}
use treetop_bundle.Cli.World.{Disk}
use treetop_bundle.Cli.Keeps.{Filing}
use treetop_bundle.Base.{
  inr, inl, Bool-cases, ◌≡◌, refl, String, Bool, true, false, Option, none, some, List, [], ◌∷◌,
  ◌==◌, eq_refl, eq_iff, leb, length, if◌then◌else◌,
}
use treetop_bundle.Error.{Result, ok, err}

abbrev pub FileList : Type 0
FileList = List (String × Bytes)

abbrev pub content_of : FileList → String → Option Bytes
content_of [] path = none
content_of ((k, bytes) ∷ rest) path = if k == path then some bytes else content_of rest path

abbrev is_some : Option Bytes → Bool
is_some none = false
is_some (some bytes) = true

abbrev opened : Option Bytes → Result String OpenFile
opened none = err "not found"
opened (some bytes) = ok (record {
  metadata = ok (record { is_file = true; mode = 0; len = length bytes });
  read_up_to = λ limit. if leb (length bytes) limit then ok bytes else err "too long";
})

abbrev pub example_files : FileList → Files
example_files s = record {
  open_file = λ path. opened (content_of s path);
  read_to_string = λ path. ok "";
  exists = λ path. is_some (content_of s path);
}

abbrev created : String → FileList → Option Bytes → Result String (Unit {0}) × FileList
created path s none = (ok tt, (path, []) ∷ s)
created path s (some bytes) = (err "exists", s)

abbrev pub example_disk : Disk FileList
example_disk = record {
  host = λ s. example_host;
  files = example_files;
  create_new = λ path s. created path s (content_of s path);
  write_all = λ path contents s. (ok tt, (path, contents) ∷ s);
}

pub created-fresh :
    (path : String) (s : FileList) (o : Option Bytes)
    → content_of s path ≡ o
    → (created path s o).0 ≡ ok tt
    → content_of s path ≡ none
created-fresh path s none e h = e
created-fresh path s (some bytes) e h = absurd cc

content_of-new :
    (path other : String) (s : FileList) (new : Bytes) {bytes : Bytes}
    → content_of s path ≡ none
    → content_of s other ≡ some bytes
    → content_of ((path, new) ∷ s) other ≡ some bytes
content_of-new path other s new e h = elim (Bool-cases (path == other)) [
  | inl same ↦ let p : path ≡ other = (eq_iff path other).0 same in absurd cc
  | inr differs ↦ rw differs h
]

pub created-Keeps :
    (path other : String) (s : FileList) (o : Option Bytes) {bytes : Bytes}
    → content_of s path ≡ o
    → content_of s other ≡ some bytes
    → content_of (created path s o).1 other ≡ some bytes
created-Keeps path other s none e h = content_of-new path other s [] e h
created-Keeps path other s (some b) e h = h

pub written-Keeps :
    (path other : String) (contents : Bytes) (s : FileList) (o : Option Bytes) {bytes : Bytes}
    → content_of s path ≡ o
    → (created path s o).0 ≡ ok tt
    → content_of s other ≡ some bytes
    → content_of ((path, contents) ∷ (created path s o).1) other ≡ some bytes
written-Keeps path other contents s none e c h = elim (Bool-cases (path == other)) [
  | inl same ↦ let p : path ≡ other = (eq_iff path other).0 same in absurd cc
  | inr differs ↦ rw differs h
]
written-Keeps path other contents s (some b) e c h = absurd cc

abbrev pub example_filing : Filing example_disk
example_filing = record {
  content = content_of;
  create_fresh = λ path s h. created-fresh path s (content_of s path) refl h;
  create_keeps = λ path other s h. created-Keeps path other s (content_of s path) refl h;
  write_keeps =
      λ path other contents s c h. written-Keeps path other contents s (content_of s path) refl c h;
  write_holds = λ path contents s c w. rw (eq_refl path) refl;
}
