-- ===== src/Dispatch.antt =====
-- AtamuraOKK/dispatch: claims on the shared calls table, and the beat that feeds the workers.
pub mod Claim
pub mod Reconcile
