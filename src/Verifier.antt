-- ===== src/Verifier.antt =====
-- actenon/proof/service.py: `PCCBVerifier`, which accepts or refuses a proof at the edge.
mod Checks
mod Service
mod Phases
pub mod Accepts
pub mod Disclosure
pub mod Tests
unfoldable pub use Checks.*
unfoldable pub use Service.*
