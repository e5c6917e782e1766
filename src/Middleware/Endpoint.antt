-- ===== src/Middleware/Endpoint.antt =====
-- `ProtectedEndpointMiddleware.execute`.
use actenon_kernel.Prelude.{Option, String, [], contains, if◌then◌else◌, none, some, string_eq, ◌∷◌}
use actenon_kernel.Json.{Fields, Json, get}
use actenon_kernel.Core.Refusal.{Exec, Refusal, Result, ok, pure, raised, refused, ◌>>=◌, ◌>>◌}
use actenon_kernel.Core.Time.{Time}
use actenon_kernel.Contracts.{ExecutionResult, ProtectedExecutionRequest}
use actenon_kernel.Receipts.{
  create_execution_receipt, create_from_exception, create_refused_receipt,
}
use actenon_kernel.Replay.{ActionConsumptionState}
use actenon_kernel.Escrow.{EscrowRecord, Presentation}
use actenon_kernel.Verifier.{Verifier, verify}
use actenon_kernel.Executor.{Outcomes, ReplayProtector, executed, redacted_details, refusal_of}

-- The fields of a `ProtectedEndpointMiddleware`; `message` and `exception_type` are as for the
-- executor.
pub record ProtectedEndpointMiddleware (E : Type 0) : Type 0 where
  pub proof_verifier : Verifier
  pub consume : Presentation → Exec E EscrowRecord
  pub outcomes : Outcomes E
  pub replay_protector : ReplayProtector E
  pub message : Refusal → String
  pub exception_type : String

abbrev pub Handler : Type 0 → Type 0
Handler E = ProtectedExecutionRequest → Exec E Fields

-- the variable `replay_state`, beside the environment
abbrev pub WithClaim : Type 0 → Type 0
WithClaim E = E × Option ActionConsumptionState

module _ {E : Type 0} where
  unfoldable pub calling : {A : Type 0} → Exec E A → Exec (WithClaim E) A
  calling m s = let (reply, e) = m s.0 in (reply, (e, s.1))

  -- `replay_state.replay_key` of None is an AttributeError
  abbrev pub mark_state :
      ReplayProtector E → Time → Option ActionConsumptionState → Exec E (Unit {0})
  mark_state p now none e = (raised, e)
  mark_state p now (some state) e = (p.mark_consumed state.claim.replay_key now >> pure tt) e

  abbrev pub kept_state :
      Result (Option ActionConsumptionState)
      → E
      → Option ActionConsumptionState
      → Result (Unit {0}) × WithClaim E
  kept_state (ok state) e old = (ok tt, (e, state))
  kept_state (refused r) e old = (refused r, (e, old))
  kept_state raised e old = (raised, (e, old))

module _ {E : Type 0} (x : ProtectedEndpointMiddleware E)
    (request : ProtectedExecutionRequest) where
  abbrev pub endpoint_verified : Exec (WithClaim E) (Unit {0})
  endpoint_verified s = (verify x.proof_verifier request.intent request.pccb request.context, s)

  -- an effect extension cannot be served here
  abbrev pub check_no_effect : Option Json → Exec (WithClaim E) (Unit {0})
  check_no_effect none s = (ok tt, s)
  check_no_effect (some _) s = (refused (refusal_of "policy" "POLICY_REFUSAL"), s)

  abbrev pub required_escrow : Option String → Exec (WithClaim E) String
  required_escrow none s = (refused (refusal_of "escrow" "ESCROW_REFERENCE_MISSING"), s)
  required_escrow (some id) s = (ok id, s)

  unfoldable pub claim_state : Exec (WithClaim E) (Unit {0})
  claim_state s =
      let (reply, e) = x.replay_protector.claim_request request s.0 in kept_state reply e s.1

  -- what the escrow is asked to consume
  abbrev pub presentation : String → Presentation
  presentation id = record {
    escrow_id = id;
    pccb_id = request.pccb.pccb_id;
    capability = request.intent.action.capability;
    now = request.context.now;
  }

  -- the mark of the claim, the receipt and the result
  unfoldable pub conclude : Fields → Option ActionConsumptionState → Exec E ExecutionResult
  unfolding create_execution_receipt
  conclude payload state = do
    mark_state x.replay_protector request.context.now state
    receipt ←
        create_execution_receipt x.outcomes.domain x.outcomes.receipt_id_factory request.intent
          request.context request.pccb.pccb_id request.pccb.escrow_id (some payload)
          (some request.pccb.action_hash)
    x.outcomes.write_receipt receipt
    pure (executed receipt (some payload))

  -- the `try` block
  unfoldable pub endpoint_attempt : Handler E → Exec (WithClaim E) ExecutionResult
  unfolding claim_state conclude calling
  endpoint_attempt handler = do
    endpoint_verified
    check_no_effect (get request.pccb.extensions "effect")
    id ← required_escrow request.pccb.escrow_id
    claim_state
    calling (x.consume (presentation id))
    payload ← calling (handler request)
    λ s. calling (conclude payload s.1) s

  -- the refusal and its receipt, written
  unfoldable pub write_endpoint_refusal : Refusal → Exec E ExecutionResult
  unfolding create_from_exception create_refused_receipt
  write_endpoint_refusal exc = do
    refusal_id ← x.outcomes.refusal_id_factory
    let refusal =
        create_from_exception refusal_id exc request.context.now (some request.intent)
          request.context (some request.pccb.pccb_id) request.pccb.escrow_id
          (some request.pccb.action_hash)
    receipt ←
        create_refused_receipt x.outcomes.domain x.outcomes.receipt_id_factory (x.message exc)
          request.intent request.context refusal
    x.outcomes.write_refusal refusal
    x.outcomes.write_receipt receipt
    pure (record { receipt = some receipt; refusal = some refusal; payload = none })

  -- a claim is released after a refusal by the escrow, an authorization or a proof
  abbrev pub release_refused : Refusal → Option ActionConsumptionState → Exec E (Unit {0})
  release_refused exc none e = (ok tt, e)
  release_refused exc (some state) e =
      if contains ⦃e = string_eq⦄ ("escrow" ∷ "authorization" ∷ "proof" ∷ []) exc.category
      then (x.replay_protector.release_claim state.claim.replay_key request.context.now
              exc.refusal_code
            >> pure tt)
          e
      else (ok tt, e)

  abbrev pub mark_failed : Option ActionConsumptionState → Exec E (Unit {0})
  mark_failed none e = (ok tt, e)
  mark_failed (some state) e = mark_state x.replay_protector request.context.now (some state) e

  abbrev pub execution_failed : Refusal
  execution_failed = record (refusal_of "execution" "EXECUTION_FAILED") {
    details = redacted_details x.exception_type request.context.request_id;
  }

  unfoldable pub endpoint_settle : Result ExecutionResult → WithClaim E → Result ExecutionResult × E
  unfolding write_endpoint_refusal
  endpoint_settle (ok result) (e, state) = (ok result, e)
  endpoint_settle (refused exc) (e, state) =
      (release_refused exc state >> write_endpoint_refusal exc) e
  endpoint_settle raised (e, state) =
      (mark_failed state >> write_endpoint_refusal execution_failed) e

  -- `ProtectedEndpointMiddleware.execute`
  unfoldable pub endpoint_execute : Handler E → Exec E ExecutionResult
  unfolding endpoint_attempt endpoint_settle
  endpoint_execute handler e =
      let (reply, s) = endpoint_attempt handler (e, none) in endpoint_settle reply s
