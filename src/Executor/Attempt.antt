-- ===== src/Executor/Attempt.antt =====
-- The `try` block of `ProtectedExecutor.execute`, composed.
use actenon_kernel.Prelude.{Option, false, if◌then◌else◌, nat_eq, none, some, string_eq, true, ◌==◌}
use actenon_kernel.Json.{Fields, Json, bool, end, field, get, obj, or_empty, put, str}
use actenon_kernel.Core.Refusal.{Exec, pure, refuse, ◌>>=◌, ◌>>◌}
use actenon_kernel.Contracts.{ExecutionResult, PolicyDecision, ProtectedExecutionRequest, Receipt}
use actenon_kernel.Receipts.{create_execution_receipt}
use actenon_kernel.Credentials.{BrokeredCredential, to_public_dict}
use actenon_kernel.Effects.{EffectProtector}
use actenon_kernel.Executor.Model.{
  BrokeredHandler, IdempotencyStore, PriorResult, ProtectedExecutor, Session, assign, payload_value,
  within,
}
use actenon_kernel.Executor.Body.{
  acquired, check_effect_extension, check_policy, claim_ownership, claimed_session, consume_escrow,
  consumed_session, operation_conflict, operation_of, verified,
}
use actenon_kernel.Executor.Evidence.{check_evidence}

abbrev pub executed : Receipt → Option Fields → ExecutionResult
executed receipt payload = record { receipt = some receipt; refusal = none; payload = payload }

-- `receipt_payload`
abbrev pub with_broker : BrokeredCredential → Option Fields → Fields
unfolding to_public_dict
with_broker credential payload =
    put (put (or_empty payload) "brokered_credential" (obj (to_public_dict credential)))
      "credential_broker"
      (obj (
        field "mode" (str "protected_endpoint")
          (field "credential_material_exposed" (bool false) end)))

abbrev pub with_effect : Option Fields → Receipt → Receipt
with_effect none receipt = receipt
with_effect (some evidence) receipt = record receipt {
  extensions = put receipt.extensions "effect" (obj evidence);
}

module _ {E : Type 0} (x : ProtectedExecutor E) (request : ProtectedExecutionRequest) where
  -- the receipt of an execution, written
  unfoldable pub write_execution : Option Fields → Option Fields → Exec E Receipt
  unfolding create_execution_receipt
  write_execution payload evidence = do
    created ←
        create_execution_receipt x.outcomes.domain x.outcomes.receipt_id_factory request.intent
          request.context request.pccb.pccb_id request.pccb.escrow_id payload
          (some request.pccb.action_hash)
    let receipt = with_effect evidence created
    x.outcomes.write_receipt receipt
    pure receipt

  -- `idempotency_store.record`
  abbrev pub record_operation :
      Option (IdempotencyStore E)
      → Option (EffectProtector E)
      → Option Json
      → Option Fields
      → Exec E (Unit {0})
  record_operation (some store) none (some id) payload =
      store.record_result id request.pccb.action_hash.value payload
  record_operation _ _ _ payload = pure tt

  -- what follows a run of the handler
  unfoldable pub settle_success :
      BrokeredCredential → Option Fields → Exec (Session E) ExecutionResult
  unfolding write_execution
  settle_success credential payload s =
      within
        (do
          x.credential_broker.release credential
              (field "outcome" (str "executed") (field "payload" (payload_value payload) end))
          receipt ← write_execution (some (with_broker credential payload)) s.locals.effect_evidence
          record_operation x.idempotency_store x.effect_protector (operation_of request.intent)
              payload
          pure (executed receipt payload))
        s

  -- the result that the operation had
  unfoldable pub replay_result : Option Fields → Exec (Session E) ExecutionResult
  unfolding consumed_session write_execution
  replay_result payload = do
    consumed_session x request
    receipt ← within (write_execution payload none)
    pure (executed receipt payload)

  module _ (handler : BrokeredHandler E) where
    -- the handler's call, and the check of what it returns
    unfoldable pub run_handler : BrokeredCredential → Exec (Session E) (Option Fields)
    unfolding check_evidence
    run_handler credential = do
      assign (λ l. record l { handler_started = true })
      payload ← within (handler request credential)
      λ s. check_evidence x s.locals.effect_reference payload s
      pure payload

    -- what follows the idempotency check
    unfoldable pub proceed : Exec (Session E) ExecutionResult
    unfolding acquired consumed_session run_handler settle_success
    proceed = do
      consume_escrow x request x.escrow request.pccb.escrow_id
      claim_ownership x request x.effect_protector
      credential ← acquired x request
      consumed_session x request
      payload ← run_handler credential
      settle_success credential payload

    unfoldable pub with_prior : Json → Option PriorResult → Exec (Session E) ExecutionResult
    unfolding proceed replay_result
    with_prior id none = proceed
    with_prior id (some prior) =
        let same = prior.action_hash == request.pccb.action_hash.value in
        if same
        then replay_result prior.result
        else refuse (operation_conflict id prior.action_hash request.pccb.action_hash.value)

    -- the idempotency check: a request under an effect protector has none
    unfoldable pub check_operation :
        Option (IdempotencyStore E)
        → Option (EffectProtector E)
        → Option Json
        → Exec (Session E) ExecutionResult
    unfolding with_prior proceed
    check_operation (some store) none (some id) = do
      prior ← within (store.lookup id)
      with_prior id prior
    check_operation _ _ _ = proceed

    -- the `try` block
    unfoldable pub attempt : Option PolicyDecision → Exec (Session E) ExecutionResult
    unfolding claimed_session check_operation
    attempt decision = do
      verified x request
      check_policy x decision
      check_effect_extension x x.effect_protector (get request.pccb.extensions "effect")
      claimed_session x request
      check_operation x.idempotency_store x.effect_protector (operation_of request.intent)
