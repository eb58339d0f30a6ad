-- ===== src/Cli/World.antt =====
-- What the commands act on: a disk whose state they change, a console, and the libraries. An action
-- takes a state and gives its outcome, the lines that it prints and the next state.
use treetop_bundle.Json.{Json}
use treetop_bundle.Archive.Decode.{Codec}
use treetop_bundle.Archive.Validate.{Reader}
use treetop_bundle.Archive.Encode.{Writer}
use treetop_bundle.Signing.Keys.{KeyDecoder}
use treetop_bundle.Validation.Compile.{Printing}
use treetop_bundle.FileSystem.{Files}
use treetop_bundle.Labels.Rules.{Engine}
use treetop_bundle.Signing.Crypto.{Crypto, Bytes}
use treetop_bundle.Host.{Host}
use treetop_bundle.Diagnostic.{Message, Diagnostic}
use treetop_bundle.Validation.Cedar.{Cedar}
use treetop_bundle.Base.{if◌then◌else◌, some, none, some, String, Bool, Option, List, [], ◌∷◌, ◌++◌}
use treetop_bundle.Error.{BundleError, Result, ok, err}

-- `CommandOutput`
pub record CommandOutput : Type 0 where
  pub valid : Bool
  pub diagnostics : List Diagnostic
  pub bundle_id : Option String
  pub archive_sha256 : Option String

-- The libraries of the other modules, `serde_json::to_string` of the output, and what may make a
-- macro of the standard library or of `serde_json` panic.
pub record Libraries : Type 1 where
  pub cedar : Cedar
  pub engine : Engine
  pub printing : Printing
  pub crypto : Crypto
  pub decoder : KeyDecoder crypto
  pub writer : Writer
  pub reader : Reader
  pub codec : Codec
  pub output_to_string : CommandOutput → Result String String
  -- `serde_json::to_value(path)`: a path that is not UTF-8 has no value.
  pub path_to_json : String → Option Json
  -- Whether a line can be written to the standard output and to the standard error.
  pub writes_line : Message → Bool
  pub writes_error : Message → Bool

-- The file system in each of its states.
pub record Disk (S : Type 0) : Type 0 where
  pub host : S → Host
  pub files : S → Files
  -- `OpenOptions::new().write(true).create_new(true).open(path)`
  pub create_new : String → S → Result String (Unit {0}) × S
  -- `file.write_all(contents)` on the file that was created at the path
  pub write_all : String → Bytes → S → Result String (Unit {0}) × S

-- `std::env::var`
pub data EnvVar : Type 0 where
  value : Bytes → EnvVar
  not_present : EnvVar
  not_unicode : EnvVar

pub record Console : Type 0 where
  -- TREETOP_BUNDLE_SIGNING_KEY_PASSWORD
  pub password_variable : EnvVar
  -- `rpassword::prompt_password`
  pub prompt_password : Result String Bytes

-- A command fails with an error, or panics.
pub data Stop : Type 0 where
  failed : BundleError → Stop
  panicked : Stop

abbrev pub Action : Type 0 → Type 0 → Type 0
Action S A = S → Result Stop A × (List Message × S)

abbrev pub stop_at : {A : Type 0} → Result BundleError A → Result Stop A
stop_at (ok a) = ok a
stop_at (err e) = err (failed e)

module _ {S : Type 0} where
  abbrev pub prepend :
      {A : Type 0}
      → List Message
      → Result Stop A × (List Message × S)
      → Result Stop A × (List Message × S)
  prepend lines (r, (more, s)) = (r, (lines ++ more, s))

  abbrev pub continue :
      {A B : Type 0}
      → (A → Action S B)
      → Result Stop A × (List Message × S)
      → Result Stop B × (List Message × S)
  continue f (ok a, (lines, s)) = prepend lines (f a s)
  continue f (err e, (lines, s)) = (err e, (lines, s))

  infixl 5 ◌>>=◌
  unfoldable pub ◌>>=◌ : {A B : Type 0} → Action S A → (A → Action S B) → Action S B
  (m >>= f) s = continue f (m s)

  infixl 5 ◌>>◌
  abbrev pub ◌>>◌ : {B : Type 0} → Action S (Unit {0}) → Action S B → Action S B
  m >> next = m >>= λ done. next

  -- A computation that only reads the disk.
  unfoldable pub reads : {A : Type 0} → (S → Result BundleError A) → Action S A
  reads f s = (stop_at (f s), ([], s))

  -- A result of the library; `none` where it panics.
  unfoldable pub returned : {A : Type 0} → Option A → Action S A
  returned (some a) s = (ok a, ([], s))
  returned none s = (err panicked, ([], s))

  abbrev pub lift : {A : Type 0} → Result BundleError A → Action S A
  lift r = reads (λ s. r)

  -- What the disk holds, and a change of it.
  unfoldable pub observe : {A : Type 0} → (S → A) → Action S A
  observe f s = (ok (f s), ([], s))

  unfoldable pub changes : {A : Type 0} → (S → Result BundleError A × S) → Action S A
  changes f s = (stop_at (f s).0, ([], (f s).1))

  -- `println!`: it panics when the line cannot be written.
  unfoldable pub println : Libraries → Message → Action S (Unit {0})
  println L line s = if L.writes_line line then (ok tt, (line ∷ [], s)) else (err panicked, ([], s))

  unfoldable pub println_each : Libraries → List Message → Action S (Unit {0})
  unfolding println ◌>>=◌
  println_each L [] s = (ok tt, ([], s))
  println_each L (line ∷ lines) s = (println L line >> println_each L lines) s
