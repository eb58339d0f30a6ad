-- ===== src/Manifest.antt =====
-- src/manifest.rs: module manifests, bundle manifests and their checks.
pub mod Module
pub mod Bundle
pub mod Accepted
pub mod Loading
pub mod Selected
