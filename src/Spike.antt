-- ===== src/Spike.antt =====
-- tools/spike_diff: programs that Spike and Determinant both run, and the comparison of what they
-- leave behind.
pub mod Hints
pub mod Compare
pub mod Encodings
pub mod DeviceTree
pub mod Constants
pub mod Generator
pub mod Fuzz
pub mod Handler
pub mod Trace
mod Tests
