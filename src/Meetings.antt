-- ===== src/Meetings.antt =====
-- The long meetings of the sales department.
pub mod Chunking
pub mod Bound
pub mod Lossless
pub mod Recordings
pub mod Requeue
pub mod Passes
pub mod Drain
pub mod Table
pub mod Sweep
pub mod Sound
pub mod Effects
pub mod Invariant
pub mod Ends
pub mod Checklist
pub mod Assemble
pub mod Merge
pub mod Marks
pub mod Worst
