-- ===== src/Scoring.antt =====
-- AtamuraOKK/scoring: from a structured assessment of one call to its payload.
pub mod Rubric
pub mod CallScore
pub mod Percent
pub mod Assemble
pub mod Bounds
pub mod Flat
pub mod Total
