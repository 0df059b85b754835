-- ===== src/Database.antt =====
-- The database layer: Database/ of the repository, with the table of DBMeta/.
pub mod Text
pub mod Table
pub mod Query
pub mod Builder
pub mod Meta
pub mod Info
pub mod DeleteRow
pub mod Connection
pub mod Thread
