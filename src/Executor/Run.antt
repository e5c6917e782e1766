-- ===== src/Executor/Run.antt =====
-- `ProtectedExecutor.execute`: the `try` block and what follows a refusal or another exception.
use actenon_kernel.Prelude.{
  Bool, Option, String, false, if◌then◌else◌, is_some, nat_eq, none, not, some, string_eq, true,
  ◌&&◌, ◌==◌,
}
use actenon_kernel.Json.{Fields, bool, end, field, str, update}
use actenon_kernel.Core.Refusal.{
  Exec, Refusal, Result, answer, ok, pure, raised, refused, ◌>>=◌, ◌>>◌,
}
use actenon_kernel.Contracts.{ExecutionResult, PolicyDecision, ProtectedExecutionRequest}
use actenon_kernel.Receipts.{create_from_exception, create_refused_receipt}
use actenon_kernel.Credentials.{BrokeredCredential}
use actenon_kernel.Replay.{ActionConsumptionState}
use actenon_kernel.Executor.Model.{
  BrokeredHandler, Locals, ProtectedExecutor, ReplayProtector, Session, no_locals, quietly,
  refusal_of,
}
use actenon_kernel.Executor.Body.{mark_replay_consumed}
use actenon_kernel.Executor.Evidence.{effect_refusal_receipt}
use actenon_kernel.Executor.Attempt.{attempt}

-- `redacted_handler_exception_details`
abbrev pub redacted_details : String → String → Fields
redacted_details exception_type request_id = field "exception_type" (str exception_type) (
    field "phase" (str "execution") (
      field "safe_error_code" (str "EXECUTION_FAILED")
        (field "sensitive_details_redacted" (bool true) (field "request_id" (str request_id) end))))

-- whether `handler_started and effect_reference is not None`
abbrev pub boundary_crossed : Locals → Bool
boundary_crossed l = is_some l.effect_reference && l.handler_started

module _ {E : Type 0} (x : ProtectedExecutor E) (request : ProtectedExecutionRequest) where
  -- `_release_credential`
  abbrev pub release_credential : Option BrokeredCredential → Fields → Exec E (Unit {0})
  release_credential none outcome = pure tt
  release_credential (some credential) outcome =
      quietly (x.credential_broker.release credential outcome)

  -- `_release_replay_claim`, unless the claim is consumed
  abbrev pub release_replay_claim :
      Option (ReplayProtector E) → Option ActionConsumptionState → Bool → String → Exec E (Unit {0})
  release_replay_claim (some protector) (some state) false reason =
      quietly (protector.release_claim state.claim.replay_key request.context.now reason)
  release_replay_claim _ _ _ reason = pure tt

  -- the mark of a claim that is left after an exception; its refusal is logged
  abbrev pub consume_quietly : Option ActionConsumptionState → Bool → Exec E (Unit {0})
  consume_quietly state true = pure tt
  consume_quietly none false = pure tt
  consume_quietly (some state) false =
      quietly (mark_replay_consumed x x.replay_protector (some state) request.context.now)

  -- the refusal and its receipt, written
  unfoldable pub write_refused : Refusal → Locals → Exec E ExecutionResult
  unfolding create_from_exception create_refused_receipt effect_refusal_receipt
  write_refused exc l = do
    refusal_id ← x.outcomes.refusal_id_factory
    let refusal =
        create_from_exception refusal_id exc request.context.now (some request.intent)
          request.context (some request.pccb.pccb_id) request.pccb.escrow_id
          (some request.pccb.action_hash)
    created ←
        create_refused_receipt x.outcomes.domain x.outcomes.receipt_id_factory (x.message exc)
          request.intent request.context refusal
    receipt ← answer (effect_refusal_receipt x created l)
    x.outcomes.write_refusal refusal
    x.outcomes.write_receipt receipt
    pure (record { receipt = some receipt; refusal = some refusal; payload = none })

  -- the refusal that is reported
  abbrev pub reported : Refusal → Locals → Refusal
  reported exc l =
      if boundary_crossed l && not (is_some l.effect_evidence)
      then refusal_of "execution" "OUTCOME_UNKNOWN"
      else exc

  abbrev pub refused_outcome : String → Fields
  refused_outcome code =
      field "outcome" (str (if code == "OUTCOME_UNKNOWN" then "ambiguous" else "refused"))
        (field "reason_code" (str code) end)

  -- `except RefusalException`
  unfoldable pub after_refusal : Refusal → Locals → Exec E ExecutionResult
  unfolding write_refused
  after_refusal exc l = do
    release_credential l.brokered_credential (refused_outcome (reported exc l).refusal_code)
    release_replay_claim x.replay_protector l.replay_state l.replay_consumed
        (reported exc l).refusal_code
    write_refused (reported exc l) l

  abbrev pub failure : Locals → Refusal
  failure l =
      record (refusal_of "execution"
        (if boundary_crossed l then "OUTCOME_UNKNOWN" else "EXECUTION_FAILED")) {
          details = redacted_details x.exception_type request.context.request_id;
        }

  abbrev pub failed_outcome : Locals → Fields
  failed_outcome l =
      update
        (field "outcome" (str (if boundary_crossed l then "ambiguous" else "failed"))
          (field "safe_error_code" (str "EXECUTION_FAILED") end))
        (redacted_details x.exception_type request.context.request_id)

  -- `except Exception`
  unfoldable pub after_exception : Locals → Exec E ExecutionResult
  unfolding write_refused
  after_exception l = do
    release_credential l.brokered_credential (failed_outcome l)
    consume_quietly l.replay_state l.replay_consumed
    write_refused (failure l) l

  unfoldable pub settle : Result ExecutionResult → Session E → Result ExecutionResult × E
  unfolding after_refusal after_exception
  settle (ok result) s = (ok result, s.env)
  settle (refused exc) s = after_refusal exc s.locals s.env
  settle raised s = after_exception s.locals s.env

  unfoldable pub execute : BrokeredHandler E → Option PolicyDecision → Exec E ExecutionResult
  unfolding attempt settle
  execute handler decision e =
      let (answer, s) =
        attempt x request handler decision (record { env = e; locals = no_locals }) in
      settle answer s
