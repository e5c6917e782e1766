-- ===== src/Policy.antt =====
-- actenon/policy/engine.py: whether an intent may go on to a proof.
mod Rules
mod Engine
pub mod Outcome
pub mod Window
pub mod Blocks
mod Tests
unfoldable pub use Rules.*
unfoldable pub use Engine.*
