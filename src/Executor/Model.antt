-- ===== src/Executor/Model.antt =====
-- The collaborators of `ProtectedExecutor`, over one environment that all of them work on, its
-- fields, and the local variables of `execute`.
use actenon_kernel.Prelude.{Bool, Option, String, [], false, none, some}
use actenon_kernel.Json.{Fields, Json, end, null, obj}
use actenon_kernel.Core.Refusal.{Exec, Refusal, answer, ok}
use actenon_kernel.Core.Time.{Time}
use actenon_kernel.Contracts.{
  ActionIntent, DynamicContextInput, Pccb, ProtectedExecutionRequest, Receipt, RefusalRecord,
}
use actenon_kernel.Receipts.{DomainTexts}
use actenon_kernel.Credentials.{BrokeredCredential}
use actenon_kernel.Effects.{EffectProtector, EffectReference}
use actenon_kernel.Replay.{ActionConsumptionState}
use actenon_kernel.Escrow.{EscrowRecord, Presentation}
use actenon_kernel.Verifier.{Verifier}

pub record ReplayProtector (E : Type 0) : Type 0 where
  pub claim_request : ProtectedExecutionRequest → Exec E (Option ActionConsumptionState)
  pub mark_consumed : String → Time → Exec E (Option ActionConsumptionState)
  pub release_claim : String → Time → String → Exec E (Option ActionConsumptionState)

pub record CredentialBroker (E : Type 0) : Type 0 where
  pub acquire : ActionIntent → Pccb → DynamicContextInput → Exec E BrokeredCredential
  pub release : BrokeredCredential → Fields → Exec E (Unit {0})

-- what the idempotency store has of an operation
pub record PriorResult : Type 0 where
  pub action_hash : String
  pub result : Option Fields

-- The id is the value of the intent's metadata, whatever its type.
pub record IdempotencyStore (E : Type 0) : Type 0 where
  pub lookup : Json → Exec E (Option PriorResult)
  pub record_result : Json → String → Option Fields → Exec E (Unit {0})

-- The ids come from the factories of the receipt and the refusal factory.
pub record Outcomes (E : Type 0) : Type 0 where
  pub domain : DomainTexts
  pub receipt_id_factory : Exec E String
  pub refusal_id_factory : Exec E String
  pub write_receipt : Receipt → Exec E (Unit {0})
  pub write_refusal : RefusalRecord → Exec E (Unit {0})

-- The fields of a `ProtectedExecutor`. `message` is the message of a refusal, `exception_type` the
-- class name of any other exception, `sha256_hex` that of actenon/proof/canonical.py (none if it
-- raises), and `valid_outcome` whether the protocol package's `validate_effect_outcome` returns.
pub record ProtectedExecutor (E : Type 0) : Type 0 where
  pub proof_verifier : Verifier
  pub credential_broker : CredentialBroker E
  pub replay_protector : Option (ReplayProtector E)
  pub escrow : Option (Presentation → Exec E EscrowRecord)
  pub outcomes : Outcomes E
  pub fail_open : Bool
  pub idempotency_store : Option (IdempotencyStore E)
  pub effect_protector : Option (EffectProtector E)
  pub message : Refusal → String
  pub exception_type : String
  pub sha256_hex : Json → Option String
  pub valid_outcome : Json → Json → Json → Bool

abbrev pub BrokeredHandler : Type 0 → Type 0
BrokeredHandler E = ProtectedExecutionRequest → BrokeredCredential → Exec E (Option Fields)

pub record Locals : Type 0 where
  pub replay_state : Option ActionConsumptionState
  pub replay_consumed : Bool
  pub brokered_credential : Option BrokeredCredential
  pub handler_started : Bool
  pub effect_reference : Option EffectReference
  pub effect_evidence : Option Fields

abbrev pub no_locals : Locals
no_locals = record {
  replay_state = none;
  replay_consumed = false;
  brokered_credential = none;
  handler_started = false;
  effect_reference = none;
  effect_evidence = none;
}

pub record Session (E : Type 0) : Type 0 where
  pub env : E
  pub locals : Locals

module _ {E : Type 0} where
  -- a collaborator's call, within `execute`
  unfoldable pub within : {A : Type 0} → Exec E A → Exec (Session E) A
  within m s = let (answer, e) = m s.env in (answer, record s { env = e })

  -- an assignment to local variables
  unfoldable pub assign : (Locals → Locals) → Exec (Session E) (Unit {0})
  assign f s = (ok tt, record s { locals = f s.locals })

  -- a call whose exceptions are logged
  unfoldable pub quietly : {A : Type 0} → Exec E A → Exec E (Unit {0})
  quietly m e = (ok tt, (m e).1)

-- a payload, as a JSON value
abbrev pub payload_value : Option Fields → Json
payload_value none = null
payload_value (some payload) = obj payload

abbrev pub refusal_of : String → String → Refusal
refusal_of category code = record {
  category = category;
  refusal_code = code;
  retryable = false;
  rule_refs = [];
  details = end;
}
