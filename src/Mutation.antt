-- ===== src/Mutation.antt =====
-- tools/mutation/mutate.py: the driver that plants one small bug at a time.
pub mod Edits
pub mod Catalogue
pub mod Run
pub mod Cache
pub mod Patterns
pub mod Output
pub mod Analysis
mod Tests
