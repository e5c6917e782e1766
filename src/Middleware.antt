-- ===== src/Middleware.antt =====
-- actenon/verifier/middleware.py: the endpoint that takes the authority of a request from escrow.
mod Endpoint
pub mod Guarded
mod Tests
unfoldable pub use Endpoint.*
