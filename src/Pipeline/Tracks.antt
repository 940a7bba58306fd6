-- ===== src/Pipeline/Tracks.antt =====
-- Every step changes every row by a row step: proved by kind of write.
mod Writes
pub mod Claims
mod Scoping
pub mod Settling
pub mod Steps
