-- ===== src/Archive/Read.antt =====
-- `BundleArchive::read`: an archive from a file, within a limit.
use treetop_bundle.Base.{ap, ℕ, String, ◌≡◌, ◌≤◌, not, false, arith, length, ltb}
use treetop_bundle.Diagnostic.{say}
use treetop_bundle.Error.{
  BundleError, io, size_limit, Result, ok, ◌>>=◌, ◌>>◌, >>=-eq-ok, map_err, refuse_if,
  refuse_if-eq-ok, ok-injective,
}
use treetop_bundle.FileSystem.{Files}
use treetop_bundle.Signing.Crypto.{Bytes}
use treetop_bundle.Archive.Limits.{limit_plus_one}

-- `BundleArchive::read`
unfoldable pub read_archive : Files → String → ℕ → Result BundleError Bytes
unfolding limit_plus_one
read_archive F path max_compressed_bytes = do
  file ← map_err (λ e. io path (say e)) (F.open_file path)
  metadata ← map_err (λ e. io path (say e)) file.metadata
  refuse_if (not metadata.is_file) (io path (say "archive is not a regular file"))
  refuse_if (ltb max_compressed_bytes metadata.len) (size_limit "compressed" max_compressed_bytes)
  limit ← limit_plus_one max_compressed_bytes "compressed"
  bytes ← map_err (λ e. io path (say e)) (file.read_up_to limit)
  refuse_if (ltb max_compressed_bytes (length bytes)) (size_limit "compressed" max_compressed_bytes)
  ok bytes

-- An archive that was read is within the limit, whatever the metadata said.
pub length-read_archive :
    (F : Files) (path : String) (limit : ℕ) (bytes : Bytes)
    → read_archive F path limit ≡ ok bytes
    → length bytes ≤ limit
unfolding read_archive
length-read_archive F path limit bytes h =
    let (file, _, h1) = >>=-eq-ok (map_err _ (F.open_file path)) _ h in
    let (metadata, _, h2) = >>=-eq-ok (map_err _ file.metadata) _ h1 in
    let (_, _, h3) = >>=-eq-ok (refuse_if (not metadata.is_file) _) _ h2 in
    let (_, _, h4) = >>=-eq-ok (refuse_if (ltb limit metadata.len) _) _ h3 in
    let (more, _, h5) = >>=-eq-ok (limit_plus_one limit "compressed") _ h4 in
    let (bytes', _, h6) = >>=-eq-ok (map_err _ (file.read_up_to more)) _ h5 in
    let (_, short, h7) = >>=-eq-ok (refuse_if (ltb limit (length bytes')) _) _ h6 in
    let s : ltb limit (length bytes') ≡ false = refuse_if-eq-ok _ _ short in
    let e : length bytes' ≡ length bytes = ap length (ok-injective h7) in ground arith
