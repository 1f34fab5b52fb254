-- ===== src/Spike/Generator.antt =====
-- The program generator, tools/spike_diff/gen.py.
pub mod Lines
pub mod Draws
pub mod Alu
pub mod Compressed
pub mod Memory
pub mod Control
pub mod Resolve
pub mod Mixes
pub mod Blocks
pub mod Program
pub mod Rules
pub mod Registers
pub mod Sound
mod Tests
