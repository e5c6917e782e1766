-- ===== src/Kernel.antt =====
-- actenon/core/kernel.py: the admission of an intent, from its payload to a proof in escrow.
mod Bindings
mod Submit
pub mod Admitted
pub mod Verifies
unfoldable pub use Bindings.*
unfoldable pub use Submit.*
mod Tests
