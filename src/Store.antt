-- ===== src/Store.antt =====
-- The database that the pipeline shares (AtamuraOKK/db/models): the rows, and the table
-- operations that the source writes as ORM reads, flushes and UPDATE statements.
mod Models
mod Tables
pub mod Laws
pub use Models.*
unfoldable pub use Tables.*
