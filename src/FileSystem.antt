-- ===== src/FileSystem.antt =====
-- What the program takes from the file system beside `Host`: files that it opens, their metadata and
-- reads that are cut off at a limit. An error is its text.
use treetop_bundle.Base.{ℕ, String, Bool, ◌≤◌, ◌≡◌, length}
use treetop_bundle.Error.{Result, ok}
use treetop_bundle.Signing.Crypto.{Bytes}

-- `fs::Metadata`: whether the file is a regular one, its mode bits and its length.
pub record Metadata : Type 0 where
  pub is_file : Bool
  pub mode : ℕ
  pub len : ℕ

-- An open file: `metadata()`, and `take(limit).read_to_end()`.
pub record OpenFile : Type 0 where
  pub metadata : Result String Metadata
  pub read_up_to : ℕ → Result String Bytes

pub record Files : Type 0 where
  -- `File::open`
  pub open_file : String → Result String OpenFile
  -- `fs::read_to_string`
  pub read_to_string : String → Result String String
  -- `Path::exists`
  pub exists : String → Bool

-- What `Read::take` documents: a read gives no more bytes than its limit.
abbrev pub IsBounded : Files → Type 0
IsBounded F =
    (path : String) (file : OpenFile) (limit : ℕ) (bytes : Bytes)
    → F.open_file path ≡ ok file
    → file.read_up_to limit ≡ ok bytes
    → length bytes ≤ limit
