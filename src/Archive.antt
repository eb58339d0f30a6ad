-- ===== src/Archive.antt =====
-- src/archive.rs: the limits on an archive, its manifest, its entries and what validation accepts.
pub mod Limits
pub mod Manifest
pub mod Decode
pub mod Order
pub mod Read
pub mod Encode
pub mod Canonical
pub mod Built
pub mod Resigned
pub mod Signed
pub mod Validate
pub mod Assigned
pub mod Verified
pub mod Accepted
pub mod Consistent
