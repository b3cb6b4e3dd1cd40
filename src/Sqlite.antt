-- ===== src/Sqlite.antt =====
-- src/store/sqlite.rs: the SQLite-backed store.
pub mod Codec
pub mod Time
pub mod Table
pub mod Connection
pub mod Log
pub mod Lease
pub mod Projection
pub mod Spec
pub mod Open
mod Tests
