-- ===== src/Companion.antt =====
-- The read side that managers see: the hygiene of the CRM (AtamuraOKK/web/api/v1/hygiene.py).
pub mod Ints
pub mod Cards
pub mod Hygiene
pub mod Tally
pub mod Noted
pub mod Counted
pub mod Sheet
