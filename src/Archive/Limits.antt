-- ===== src/Archive/Limits.antt =====
-- `ArchiveLimits`: machine words of 64 bits, so that a `usize` is always a `u64`.
use treetop_bundle.Base.{
  ℕ, ◌+◌, ◌*◌, ◌^◌, ◌-◌, ◌<◌, String, ◌≡◌, ◌↔◌, ◌||◌, [], ◌∷◌, arith, nat_beq, leb, if◌then◌else◌,
}
use treetop_bundle.Diagnostic.{text, say}
use treetop_bundle.Error.{BundleError, archive, Result, ok, err, ◌>>=◌, ◌>>◌, refuse_if}

abbrev pub u64_max : ℕ
u64_max = 2 ^ 64 - 1

pub record ArchiveLimits : Type 0 where
  pub max_compressed_bytes : ℕ
  pub max_uncompressed_bytes : ℕ

-- `limit_plus_one`
unfoldable pub limit_plus_one : ℕ → String → Result BundleError ℕ
limit_plus_one limit kind =
    if leb (limit + 1) u64_max
    then ok (limit + 1)
    else err (archive (text kind ∷ text " size limit is too large to enforce" ∷ []))

-- `ArchiveLimits::new`
unfoldable pub new_limits : ℕ → ℕ → Result BundleError ArchiveLimits
unfolding limit_plus_one
new_limits compressed uncompressed = do
  refuse_if (nat_beq compressed 0 || nat_beq uncompressed 0)
      (archive (say "archive size limits must be greater than zero"))
  _ ← limit_plus_one compressed "compressed"
  _ ← limit_plus_one uncompressed "uncompressed"
  ok (record { max_compressed_bytes = compressed; max_uncompressed_bytes = uncompressed })

-- `ArchiveLimits::default`
abbrev pub default_limits : ArchiveLimits
default_limits = record {
  max_compressed_bytes = 10 * 1024 * 1024;
  max_uncompressed_bytes = 50 * 1024 * 1024;
}

-- `ArchiveLimits::new` returns the two limits exactly when both are positive and each leaves room
-- for one more byte in a machine word, so that the readers can notice what exceeds it.
pub new_limits_iff :
    (compressed uncompressed : ℕ)
    → (new_limits compressed uncompressed
        ≡ ok (record { max_compressed_bytes = compressed; max_uncompressed_bytes = uncompressed }))
      ↔ ((0 < compressed) × (0 < uncompressed) × (compressed < u64_max) × (uncompressed < u64_max))
unfolding new_limits
new_limits_iff compressed uncompressed = ground arith
