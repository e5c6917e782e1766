-- ===== src/Idempotency.antt =====
-- actenon/idempotency.py: the outcome states and the store of results.
mod Store
pub mod First
mod Tests
unfoldable pub use Store.*
