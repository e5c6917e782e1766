-- ===== src/Core.antt =====
-- actenon/core/errors.py, actenon/core/json.py and the timestamps of actenon/models/contracts.py.
pub mod Refusal
pub mod Time
pub mod Format
pub mod JsonDepth
pub mod Patterns
