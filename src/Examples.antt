-- ===== src/Examples.antt =====
-- The development at concrete inputs.
mod Inputs
mod Keys
mod Bundle
mod Disk
mod Commands
mod Compiling
mod Stored
mod ArchiveWitnesses
mod CommandWitnesses
mod Witnesses
