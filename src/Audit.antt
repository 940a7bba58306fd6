-- ===== src/Audit.antt =====
-- The audit of deals that were closed as lost (AtamuraOKK/audit).
pub mod Deals
pub mod Duplicates
pub mod Telephony
pub mod Service
pub mod Settled
pub mod Names
pub mod Cursor
pub mod Verdicts
pub mod Polling
pub mod Awaited
pub mod Polled
