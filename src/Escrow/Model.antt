-- ===== src/Escrow/Model.antt =====
-- actenon/escrow/base.py
use actenon_kernel.Prelude.{Bool, Option, String, false, none, some, true}
use actenon_kernel.Json.{Fields, put, str}
use actenon_kernel.Core.Time.{Time}

-- the values of `EscrowRecord.state` that the stores write
pub data EscrowState : Type 0 where
  issued consumed revoked expired : EscrowState

abbrev pub state_beq : EscrowState → EscrowState → Bool
state_beq issued issued = true
state_beq consumed consumed = true
state_beq revoked revoked = true
state_beq expired expired = true
state_beq _ _ = false

pub record EscrowRecord : Type 0 where
  pub escrow_id : String
  pub pccb_id : String
  pub capability : String
  pub expires_at : Time
  pub state : EscrowState
  pub consumed_at : Option Time
  pub metadata : Fields

-- The arguments of `consume`.
pub record Presentation : Type 0 where
  pub escrow_id : String
  pub pccb_id : String
  pub capability : String
  pub now : Time

-- The arguments of `issue`.
pub record Issue : Type 0 where
  pub escrow_id : String
  pub pccb_id : String
  pub capability : String
  pub expires_at : Time
  pub metadata : Fields

abbrev pub issued_record : Issue → EscrowRecord
issued_record i = record {
  escrow_id = i.escrow_id;
  pccb_id = i.pccb_id;
  capability = i.capability;
  expires_at = i.expires_at;
  state = issued;
  consumed_at = none;
  metadata = i.metadata;
}

abbrev pub consumed_record : Time → EscrowRecord → EscrowRecord
consumed_record now r = record r { state = consumed; consumed_at = some now }

abbrev pub expired_record : EscrowRecord → EscrowRecord
expired_record r = record r { state = expired }

abbrev pub revoked_record : String → EscrowRecord → EscrowRecord
revoked_record reason r = record r {
  state = revoked;
  metadata = put r.metadata "revocation_reason" (str reason);
}
