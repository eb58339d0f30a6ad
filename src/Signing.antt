-- ===== src/Signing.antt =====
-- src/signing.rs: signatures, trusted keys and signing keys.
pub mod Crypto
pub mod Trust
pub mod Verify
pub mod Inserted
pub mod KeyMap
pub mod Keys
pub mod Loaded
