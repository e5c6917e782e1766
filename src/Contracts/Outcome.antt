-- ===== src/Contracts/Outcome.antt =====
-- `CorrelationRef`, `Receipt` and `Refusal` of actenon/models/contracts.py, and `ExecutionResult` of
-- actenon/models/runtime.py. A refusal is written without its message and violations.
use actenon_kernel.Prelude.{Bool, List, Option, String}
use actenon_kernel.Json.{Fields}
use actenon_kernel.Core.Time.{Time}
use actenon_kernel.Contracts.Refs.{
  ActionHashSpec, ActionSpec, AudienceRef, PartyRef, TargetRef, TenantRef,
}

pub record CorrelationRef : Type 0 where
  pub pccb_id : Option String
  pub escrow_id : Option String
  pub refusal_id : Option String
  pub receipt_id : Option String
  pub request_id : Option String
  pub action_hash : Option ActionHashSpec
  pub execution_attempt_id : Option String
  pub protocol_version : Option String
  pub execution_mode : Option String
  pub verifier_identity : Option String
  pub target_digest : Option ActionHashSpec

pub record Receipt : Type 0 where
  pub receipt_id : String
  pub intent_id : String
  pub occurred_at : Time
  pub outcome : String
  pub tenant : TenantRef
  pub subject : PartyRef
  pub action : ActionSpec
  pub target : TargetRef
  pub summary : String
  pub phase : Option String
  pub correlation : Option CorrelationRef
  pub reason_codes : List String
  pub follow_up : Fields
  pub side_effects : Fields
  pub details : Fields
  pub metadata : Fields
  pub extensions : Fields

pub record RefusalRecord : Type 0 where
  pub refusal_id : String
  pub category : String
  pub reason_code : String
  pub retryable : Bool
  pub refused_at : Time
  pub intent_id : Option String
  pub tenant : Option TenantRef
  pub subject : Option PartyRef
  pub audience : Option AudienceRef
  pub action : Option ActionSpec
  pub target : Option TargetRef
  pub correlation : Option CorrelationRef
  pub rule_refs : List String
  pub details : Fields
  pub extensions : Fields

pub record ExecutionResult : Type 0 where
  pub receipt : Option Receipt
  pub refusal : Option RefusalRecord
  pub payload : Option Fields
