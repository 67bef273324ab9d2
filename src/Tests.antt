-- ===== src/Tests.antt =====
-- Concrete runs of the definitions, and the theorems at concrete inputs.
mod Decoding
pub mod Tables
pub mod Machine
pub mod Debugging
mod Commands
pub mod Stepping
pub mod Running
mod Places
mod Lines
pub mod Executable
pub mod Sessions
mod Starting
mod Completion
