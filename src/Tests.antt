-- ===== src/Tests.antt =====
-- The theorems at concrete inputs, by the part of the program.
mod Examples
mod Runs
pub mod Output
pub mod Registers
pub mod Pools
pub mod Mapping
pub mod Manager
