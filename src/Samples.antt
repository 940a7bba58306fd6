-- ===== src/Samples.antt =====
-- Concrete inputs, and the theorems of the library applied to them.
mod Data
mod Runs
mod Journey
mod Rows
mod Sheets
mod Bitrix
mod Meetings
mod Audit
mod Companion
mod Clients
