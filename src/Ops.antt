-- ===== src/Ops.antt =====
-- AtamuraOKK/ops and the operator's requeue functions.
pub mod Retry
pub mod Requeue
