-- ===== src/Replay.antt =====
-- actenon/replay: the relational single-use store (base.py, dbapi.py, sqlite.py, service.py).
mod Model
mod Store
pub mod Moves
mod Steps
pub mod Methods
pub mod World
pub mod SingleUse
pub mod Inspect
pub mod Results
pub mod Spending
pub mod Lease
pub mod Rollback
pub mod Service
pub mod Claiming
pub mod Late
mod Tests
unfoldable pub use Model.*
unfoldable pub use Store.*
