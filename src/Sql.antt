-- ===== src/Sql.antt =====
-- The SQL statements of actenon/replay/dbapi.py and actenon/escrow/sqlite.py, over a table with a
-- text as its primary key. The engine is not part of the repository: these are the semantics of
-- single statements that the stores rely on.
mod Defs
mod Laws
unfoldable pub use Defs.*
pub use Laws.*
