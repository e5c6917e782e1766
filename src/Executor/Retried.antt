-- ===== src/Executor/Retried.antt =====
-- An admitted request at an executor that fails closed: replayed, retried, or executed.
use actenon_kernel.Prelude.{
  Option, String, false, nat_eq, none, refl, some, string_eq, true, ◌==◌, ◌∙◌, ◌≡◌,
}
use actenon_kernel.Json.{Fields, Json, end, field, get, str}
use actenon_kernel.Core.Refusal.{Exec, Refusal, ok, pure, refuse, refused, ◌>>=◌}
use actenon_kernel.Contracts.{PolicyDecision, ProtectedExecutionRequest, Receipt}
use actenon_kernel.Credentials.{BrokeredCredential}
use actenon_kernel.Replay.{ActionConsumptionState}
use actenon_kernel.Escrow.{EscrowRecord, Presentation}
use actenon_kernel.Verifier.{verify}
use actenon_kernel.Executor.Model.{
  BrokeredHandler, IdempotencyStore, Locals, PriorResult, ProtectedExecutor, ReplayProtector,
  Session, assign, no_locals, payload_value, quietly, within,
}
use actenon_kernel.Executor.Body.{
  acquired, claim_replay, claimed_session, consume_escrow, consumed_session, mark_replay_consumed,
  operation_conflict, operation_of,
}
use actenon_kernel.Executor.Evidence.{check_evidence}
use actenon_kernel.Executor.Attempt.{
  attempt, check_operation, executed, proceed, replay_result, run_handler, settle_success,
  with_broker, with_prior, write_execution,
}
use actenon_kernel.Executor.Run.{after_refusal, execute, settle, write_refused}
use actenon_kernel.Executor.Guarded.{fail_closed, permits}
use actenon_kernel.Executor.Refused.{attempt_admitted, begun, effect_covered, refused_at_once}

-- an executor with this idempotency store and without an effect protector
abbrev pub remembering :
    {E : Type 0} → IdempotencyStore E → ProtectedExecutor E → ProtectedExecutor E
remembering d x = record x { idempotency_store = some d; effect_protector = none }

-- an executor with this escrow, and with neither an idempotency store nor an effect protector
abbrev pub with_escrow :
    {E : Type 0} → (Presentation → Exec E EscrowRecord) → ProtectedExecutor E → ProtectedExecutor E
with_escrow consume x = record x {
  escrow = some consume;
  idempotency_store = none;
  effect_protector = none;
}

-- the local variables after the claim
abbrev pub claimed_locals : ActionConsumptionState → Locals
claimed_locals state = record no_locals { replay_state = some state }

-- what the escrow is asked to consume
abbrev pub presented : ProtectedExecutionRequest → String → Presentation
presented request id = record {
  escrow_id = id;
  pccb_id = request.pccb.pccb_id;
  capability = request.intent.action.capability;
  now = request.context.now;
}

consumed_escrow :
    {E : Type 0} (x : ProtectedExecutor E) (request : ProtectedExecutionRequest)
    (consume : Presentation → Exec E EscrowRecord) (o : Option String) (id : String)
    (r : EscrowRecord) (s : Session E) (e : E)
    → o ≡ some id
    → consume (presented request id) s.env ≡ (ok r, e)
    → consume_escrow x request (some consume) o s ≡ (ok tt, record s { env = e })
unfolding ◌>>=◌ within pure
consumed_escrow x request consume o id r s e held consumes = rw held (rw consumes refl)

module _ {E : Type 0} (protector : ReplayProtector E) (base : ProtectedExecutor E)
    (request : ProtectedExecutionRequest) (handler : BrokeredHandler E)
    (decision : Option PolicyDecision) (e : E)
    (accepted : verify base.proof_verifier request.intent request.pccb request.context ≡ ok tt)
    (permitted : permits decision ≡ true) where
  -- At an executor that fails closed, if a request verifies, the decision permits it, and it has an
  -- effect extension only where there is an effect protector, but its claim is refused, as for a
  -- replayed proof, `execute` answers with this refusal, written from the environment that the
  -- claim left: neither the idempotency store nor the handler is called.
  pub replay_refused :
      (r : Refusal) (e' : E)
      → effect_covered base.effect_protector (get request.pccb.extensions "effect") ≡ true
      → protector.claim_request request e ≡ (refused r, e')
      → execute (fail_closed protector base) request handler decision e
        ≡ write_refused (fail_closed protector base) request r no_locals e'
  unfolding execute settle ◌>>=◌ claimed_session within claim_replay
  replay_refused r e' covered claim =
      rw
        (attempt_admitted (fail_closed protector base) request handler decision e accepted permitted
          covered)
        (rw claim (refused_at_once (fail_closed protector base) request r e'))

  module _ (plain : get request.pccb.extensions "effect" ≡ none) (state : ActionConsumptionState)
      (e1 : E) (gained : protector.claim_request request e ≡ (ok (some state), e1)) where
    module _ (d : IdempotencyStore E) (id : Json)
        (operation : operation_of request.intent ≡ some id) (prior : PriorResult) (e2 : E)
        (known : d.lookup id e1 ≡ (ok (some prior), e2)) where
      abbrev x : ProtectedExecutor E
      x = remembering d (fail_closed protector base)

      reached :
          attempt x request handler decision (begun x request handler decision e)
          ≡ with_prior x request handler id
              (some prior)
              (record { env = e2; locals = claimed_locals state })
      unfolding ◌>>=◌ claimed_session within assign claim_replay check_operation
      reached =
          attempt_admitted x request handler decision e accepted permitted (rw plain refl)
          ∙ rw (gained, operation) (rw known refl)

      -- At an executor that fails closed and has an idempotency store but no effect protector, a
      -- request without an effect extension that verifies, that the decision permits, whose claim
      -- returns, and whose operation has a prior result with the same action hash, is answered with
      -- the prior result and a receipt for it, from the environment that the lookup, the mark of
      -- its claim and the writing of the receipt leave, if the mark and the writing return: neither
      -- the escrow, the credential broker nor the handler is called.
      pub retry_returns_prior :
          (o : Option ActionConsumptionState) (e3 e4 : E) (receipt : Receipt)
          → (prior.action_hash == request.pccb.action_hash.value) ≡ true
          → protector.mark_consumed state.claim.replay_key request.context.now e2 ≡ (ok o, e3)
          → write_execution x request prior.result none e3 ≡ (ok receipt, e4)
          → execute x request handler decision e ≡ (ok (executed receipt prior.result), e4)
      unfolding execute settle with_prior replay_result ◌>>=◌ consumed_session within assign
          mark_replay_consumed pure
      retry_returns_prior o e3 e4 receipt same marked written =
          rw reached (rw same (rw marked (rw written refl)))

      -- At an executor that fails closed and has an idempotency store but no effect protector, a
      -- request without an effect extension that verifies, that the decision permits, whose claim
      -- returns, and whose operation has a prior result with another action hash, has its claim
      -- released and is refused with IDEMPOTENCY_CONFLICT: the handler is not called.
      pub conflict_refused :
          (prior.action_hash == request.pccb.action_hash.value) ≡ false
          → execute x request handler decision e
            ≡ write_refused x request
                (operation_conflict id prior.action_hash request.pccb.action_hash.value)
                (claimed_locals state)
                (protector.release_claim state.claim.replay_key request.context.now
                  "IDEMPOTENCY_CONFLICT" e2).1
      unfolding execute settle with_prior ◌>>=◌ refuse after_refusal quietly pure
      conflict_refused differs = rw reached (rw differs refl)

    -- At an executor that fails closed and has an escrow, but neither an idempotency store nor an
    -- effect protector, a request with an escrow id and without an effect extension that verifies,
    -- that the decision permits, and whose claim, escrow record, credential, mark, handler, release
    -- and receipt are all given by the collaborators, is answered with the receipt of its execution
    -- and the handler's payload, the calls being made in this order.
    pub authorised_executes :
        (consume : Presentation → Exec E EscrowRecord) (escrow_id : String) (r : EscrowRecord)
        (c : BrokeredCredential) (o : Option ActionConsumptionState) (payload : Option Fields)
        (receipt : Receipt) (e2 e3 e4 e5 e6 e7 : E)
        → let x = with_escrow consume (fail_closed protector base) in
          request.pccb.escrow_id ≡ some escrow_id
          → consume (presented request escrow_id) e1 ≡ (ok r, e2)
          → base.credential_broker.acquire request.intent request.pccb request.context e2
            ≡ (ok c, e3)
          → protector.mark_consumed state.claim.replay_key request.context.now e3 ≡ (ok o, e4)
          → handler request c e4 ≡ (ok payload, e5)
          → base.credential_broker.release c
              (field "outcome" (str "executed") (field "payload" (payload_value payload) end))
              e5
            ≡ (ok tt, e6)
          → write_execution x request (some (with_broker c payload)) none e6 ≡ (ok receipt, e7)
          → execute x request handler decision e ≡ (ok (executed receipt payload), e7)
    unfolding execute settle ◌>>=◌ claimed_session within assign claim_replay check_operation
        proceed acquired consumed_session mark_replay_consumed run_handler check_evidence
        settle_success pure
    authorised_executes consume escrow_id r c o payload receipt e2 e3 e4 e5 e6 e7 held consumes
          acquires marks handles releases written =
        let x = with_escrow consume (fail_closed protector base) in
        rw (attempt_admitted x request handler decision e accepted permitted (rw plain refl)) (
          rw gained (
            rw
              (consumed_escrow x request consume request.pccb.escrow_id escrow_id r
                (record { env = e1; locals = claimed_locals state }) e2 held consumes)
              (rw acquires (rw marks (rw handles (rw releases (rw written refl)))))))
