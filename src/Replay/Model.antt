-- ===== src/Replay/Model.antt =====
-- The data of actenon/replay/base.py and the tables of actenon/replay/dbapi.py.
use actenon_kernel.Prelude.{Bool, List, Option, String, arith, false, true, ℕ, ◌↔◌, ◌≡◌}
use actenon_kernel.Json.{Fields}
use actenon_kernel.Core.Time.{Time}

-- `ActionConsumptionStatus`
pub data Status : Type 0 where
  claimed consumed released expired : Status

abbrev pub status_beq : Status → Status → Bool
status_beq claimed claimed = true
status_beq consumed consumed = true
status_beq released released = true
status_beq expired expired = true
status_beq _ _ = false

status_beq_iff : (a b : Status) → (status_beq a b ≡ true) ↔ (a ≡ b)
status_beq_iff claimed b = ground arith
status_beq_iff consumed b = ground arith
status_beq_iff released b = ground arith
status_beq_iff expired b = ground arith

-- the text in the column
abbrev pub status_text : Status → String
status_text claimed = "claimed"
status_text consumed = "consumed"
status_text released = "released"
status_text expired = "expired"

-- `ActionConsumptionClaim`
pub record ActionConsumptionClaim : Type 0 where
  pub replay_key : String
  pub intent_id : Option String
  pub pccb_id : String
  pub nonce : String
  pub action_hash : String
  pub audience : String
  pub capability : String
  pub tenant_id : Option String
  pub subject_id : Option String
  pub expires_at : Time
  pub metadata : Fields

-- `ActionConsumptionState`, which is also a row of `action_consumption`: the columns of the claim,
-- and those that the store adds.
pub record ActionConsumptionState : Type 0 where
  pub claim : ActionConsumptionClaim
  pub open claim use *
  pub status : Status
  pub created_at : Time
  pub updated_at : Time
  pub consumed_at : Option Time

abbrev pub row_key : ActionConsumptionState → String
row_key r = r.replay_key

-- The two tables. `mutation_counter` is none if the metadata row is missing.
pub record Database : Type 0 where
  pub action_consumption : List ActionConsumptionState
  pub mutation_counter : Option ℕ

-- What one store object works on: the shared database and its own `_last_observed_counter`.
pub record StoreState : Type 0 where
  pub database : Database
  pub open database use *
  pub last_observed_counter : ℕ
