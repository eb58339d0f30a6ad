-- ===== src/Validation.antt =====
-- src/validation.rs: the checks of policies and schemas, and the compiler of a bundle.
pub mod Normalize
pub mod Policy
pub mod Ownership
pub mod StaysIn
pub mod Errors
pub mod SameSet
pub mod Contained
pub mod Accepted
pub mod Claims
pub mod Grows
pub mod CompiledFiles
pub mod Distinct
pub mod Recorded
pub mod Compiled
pub mod Cedar
pub mod ModulePolicies
pub mod SchemaParts
pub mod Checks
pub mod LabelSchema
pub mod SchemaSource
pub mod CommonNames
pub mod Resolves
pub mod Compile
pub mod ArchiveParts
pub mod PolicyCheck
