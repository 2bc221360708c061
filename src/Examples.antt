-- ===== src/Examples.antt =====
-- The programs under examples/: their command lines and the parts of them that compute or drive the
-- library. What they print and measure is not modelled.
pub mod CommandLine
pub mod ReplayBuffer
pub mod TypedDictionary
pub mod OutputBuffers
pub mod Session
