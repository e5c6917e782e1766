-- ===== src/Posture.antt =====
-- actenon/security_posture.py and the construction of the default replay store and of the executor
-- (actenon/replay/service.py, actenon/execution/protected_executor.py): which weaker guarantees an
-- environment permits.
mod Permits
pub mod Recorded
mod Tests
unfoldable pub use Permits.*
