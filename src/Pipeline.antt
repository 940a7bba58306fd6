-- ===== src/Pipeline.antt =====
-- The whole pipeline as a transition system: every transaction of the source is a step.
pub mod Rows
pub mod System
pub mod Keys
pub mod Tracks
pub mod Invariant
pub mod Attempts
pub mod Graph
pub mod Redelivery
pub mod Leases
pub mod Queue
pub mod Retries
pub mod DeadLetters
