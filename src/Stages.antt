-- ===== src/Stages.antt =====
-- The per-call units of work of the three stages.
pub mod Download
pub mod Transcribe
pub mod Labels
pub mod Alert
pub mod Score
pub mod Batch
pub mod Tasks
pub mod Once
