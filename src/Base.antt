-- ===== src/Base.antt =====
-- The base library: Base/ of the repository.
pub mod File
pub mod Settings
pub mod Logging
pub mod DataStream
pub mod Trim
pub mod ApplyParse
mod Examples
