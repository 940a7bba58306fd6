-- ===== src/Drivers.antt =====
-- The loops that drive the stages.
pub mod Batches
pub mod Submit
pub mod Tick
pub mod Commits
pub mod Drained
pub mod Sweeps
