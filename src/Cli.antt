-- ===== src/Cli.antt =====
-- cli/src/main.rs: the commands `check`, `build` and `sign`.
pub mod Arguments
pub mod World
pub mod Render
pub mod Rendered
pub mod Keys
pub mod Password
pub mod Inputs
pub mod Run
pub mod Unchanged
pub mod Keeps
pub mod Written
pub mod NeverPanics
pub mod Returns
pub mod Exit
