-- ===== src/Ingestion.antt =====
-- AtamuraOKK/ingestion: which calls enter the table, and which of them are analyzed.
pub mod Scope
pub mod Upsert
pub mod Once
pub mod Clients
pub mod Qualified
pub mod Mapping
pub mod Keys
pub mod Race
