-- ===== src/Labels.antt =====
-- src/labels.rs: label documents, their limits and the runtime labelers.
pub mod Rules
pub mod Limits
pub mod Parse
pub mod Combine
pub mod Derive
pub mod Targets
pub mod Accepted
pub mod Compiled
pub mod Document
pub mod Schema
