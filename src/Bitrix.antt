-- ===== src/Bitrix.antt =====
-- The client of the Bitrix REST API.
pub mod Client
pub mod Retry
pub mod Paging
