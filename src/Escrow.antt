-- ===== src/Escrow.antt =====
-- actenon/escrow: single-use capability records (base.py, memory.py, sqlite.py).
mod Model
pub mod Memory
pub mod Sqlite
pub mod Shows
pub mod Refines
pub mod Consume
pub mod Expired
pub mod Once
pub mod MemoryOnce
mod Effect
pub mod SqliteOnce
mod Tests
unfoldable pub use Model.*
