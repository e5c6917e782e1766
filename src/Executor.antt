-- ===== src/Executor.antt =====
-- actenon/execution/protected_executor.py: proof, replay claim, idempotency, escrow, effect claim,
-- brokered credential, handler and receipt, in this order.
mod Model
mod Evidence
mod Body
mod Attempt
mod Run
unfoldable pub use Model.*
unfoldable pub use Evidence.*
unfoldable pub use Body.*
unfoldable pub use Attempt.*
unfoldable pub use Run.*
pub mod Rules
pub mod Keeps
pub mod After
pub mod Guarded
pub mod Safety
pub mod Edge
pub mod Once
pub mod Refused
pub mod Retried
pub mod Tests
pub mod RetryTests
mod FailTests
pub mod Failed
