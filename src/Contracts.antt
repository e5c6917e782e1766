-- ===== src/Contracts.antt =====
-- actenon/models/contracts.py and actenon/models/runtime.py: the records that travel.
mod Refs
mod Intent
mod Proof
mod Context
mod Outcome
unfoldable pub use Refs.*
unfoldable pub use Intent.*
unfoldable pub use Proof.*
unfoldable pub use Context.*
unfoldable pub use Outcome.*
