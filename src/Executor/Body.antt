-- ===== src/Executor/Body.antt =====
-- The steps in the `try` block of `ProtectedExecutor.execute`.
use actenon_kernel.Prelude.{
  Bool, List, Option, String, [], false, if◌then◌else◌, map, nat_eq, none, some, string_eq, true,
  ◌==◌, ◌||◌, ◌∷◌,
}
use actenon_kernel.Json.{
  Fields, Items, Json, arr, cons, end, field, get, nil, null, obj, str, strings,
}
use actenon_kernel.Core.Refusal.{
  Exec, Refusal, Result, answer, ok, pure, raised, refuse, refused, ◌>>=◌, ◌>>◌,
}
use actenon_kernel.Core.Time.{Time}
use actenon_kernel.Contracts.{
  ActionIntent, PolicyDecision, ProtectedExecutionRequest, RuleEvaluation, allowed,
}
use actenon_kernel.Credentials.{BrokeredCredential}
use actenon_kernel.Effects.{EffectProtector, claim_effect, keys}
use actenon_kernel.Replay.{ActionConsumptionState}
use actenon_kernel.Core.Patterns.{letters}
use actenon_kernel.Escrow.{EscrowRecord, Presentation}
use actenon_kernel.Verifier.{verify}
use actenon_kernel.Executor.Model.{
  ProtectedExecutor, ReplayProtector, Session, assign, refusal_of, within,
}

-- `list(value)` of a JSON value: none is a TypeError
abbrev pub as_list : Option Json → Option Items
unfolding letters
as_list none = some nil
as_list (some (arr xs)) = some xs
as_list (some (str s)) = some (letters s)
as_list (some (obj fs)) = some (strings (keys fs))
as_list (some _) = none

abbrev pub evaluation_dict : RuleEvaluation → Items → Fields
evaluation_dict e evidence_keys = field "reason_code" (str e.reason_code) (
    field "summary" (str e.summary) (
      field "required_evidence" (arr (strings e.required_evidence)) (
        field "required_approvals" (arr (strings e.approver_types))
          (field "evidence_keys" (arr evidence_keys) end))))

abbrev pub with_evaluation : RuleEvaluation → Option Items → Option Items → Option Items
with_evaluation e (some evidence_keys) (some rest) =
    some (cons (obj (evaluation_dict e evidence_keys)) rest)
with_evaluation e _ _ = none

-- `unmet_requirements`
unfoldable pub unmet : List RuleEvaluation → Option Items
unmet [] = some nil
unmet (e ∷ es) =
    let rest = unmet es in
    if e.outcome == "allow"
    then rest
    else with_evaluation e (as_list (get e.details "evidence_keys")) rest

abbrev pub first_or : String → List String → String
first_or d [] = d
first_or d (s ∷ ss) = s

abbrev pub refusal_by : PolicyDecision → Items → Refusal
refusal_by d requirements = record {
  category = "policy";
  refusal_code = first_or "POLICY_REFUSED" d.reason_codes;
  retryable = d.outcome == "approval-required" || d.outcome == "needs-evidence";
  rule_refs = map (λ (e : RuleEvaluation). e.rule_id) d.rule_evaluations;
  details = field "policy_outcome" (str d.outcome) (
      field "reason_codes" (arr (strings d.reason_codes)) (
        field "required_evidence" (arr (strings d.required_evidence)) (
          field "approver_types" (arr (strings d.approver_types))
            (field "unmet_requirements" (arr requirements) end))));
}

-- `raise _policy_refusal(decision)`
unfoldable pub policy_refusal : PolicyDecision → Result (Unit {0})
unfolding unmet
policy_refusal d = elim (unmet d.rule_evaluations) [
  | none ↦ raised
  | some requirements ↦ refused (refusal_by d requirements)
]

abbrev pub replay_unavailable : String → Refusal
replay_unavailable operation = record {
  category = "replay";
  refusal_code = "REPLAY_STORE_UNAVAILABLE";
  retryable = true;
  rule_refs = [];
  details = field "operation" (str operation) end;
}

-- IDEMPOTENCY_CONFLICT
abbrev pub operation_conflict : Json → String → String → Refusal
operation_conflict operation_id expected actual =
    record (refusal_of "idempotency" "IDEMPOTENCY_CONFLICT") {
      details = field "operation_id" operation_id (
          field "expected_action_hash" (str expected)
            (field "actual_action_hash" (str actual) end));
    }

-- `request.intent.metadata.get("operation_id")`
abbrev pub operation_of : ActionIntent → Option Json
operation_of i = elim (get i.metadata "operation_id") [
  | none ↦ none
  | some null ↦ none
  | some id ↦ some id
]

abbrev pub returned_true : {A : Type 0} → Result A → Result Bool
returned_true (ok _) = ok true
returned_true (refused r) = refused r
returned_true raised = raised

module _ {E : Type 0} (x : ProtectedExecutor E) where
  -- a failure of the replay store: let through, or a refusal
  abbrev pub or_unavailable : {A : Type 0} → String → A → Result A → Result A
  or_unavailable operation default (ok a) = ok a
  or_unavailable operation default (refused r) = refused r
  or_unavailable operation default raised =
      if x.fail_open then ok default else refused (replay_unavailable operation)

  -- `_claim_replay`
  unfoldable pub claim_replay :
      Option (ReplayProtector E)
      → ProtectedExecutionRequest
      → Exec E (Option ActionConsumptionState)
  claim_replay none request e = (ok none, e)
  claim_replay (some protector) request e =
      let (answer, e') = protector.claim_request request e in
      (or_unavailable "claim" none answer, e')

  -- `_mark_replay_consumed`
  unfoldable pub mark_replay_consumed :
      Option (ReplayProtector E) → Option ActionConsumptionState → Time → Exec E Bool
  mark_replay_consumed none state now e = (ok false, e)
  mark_replay_consumed (some protector) none now e = (ok false, e)
  mark_replay_consumed (some protector) (some state) now e =
      let (answer, e') = protector.mark_consumed state.claim.replay_key now e in
      (or_unavailable "consume" false (returned_true answer), e')

  -- the decision that the caller may give
  abbrev pub check_policy : Option PolicyDecision → Exec (Session E) (Unit {0})
  check_policy none s = (ok tt, s)
  check_policy (some decision) s =
      if allowed decision then (ok tt, s) else (policy_refusal decision, s)

  -- an effect extension requires an effect protector
  abbrev pub check_effect_extension :
      Option (EffectProtector E) → Option Json → Exec (Session E) (Unit {0})
  check_effect_extension none (some _) s = (refused (refusal_of "policy" "POLICY_REFUSAL"), s)
  check_effect_extension none none s = (ok tt, s)
  check_effect_extension (some _) _ s = (ok tt, s)

  module _ (request : ProtectedExecutionRequest) where
    -- `proof_verifier.verify`
    abbrev pub verified : Exec (Session E) (Unit {0})
    verified s = (verify x.proof_verifier request.intent request.pccb request.context, s)

    unfoldable pub claimed_session : Exec (Session E) (Unit {0})
    unfolding claim_replay
    claimed_session = do
      state ← within (claim_replay x.replay_protector request)
      assign (λ l. record l { replay_state = state })

    unfoldable pub consumed_session : Exec (Session E) (Unit {0})
    unfolding mark_replay_consumed
    consumed_session s =
        (do
          done ←
              within
                (mark_replay_consumed x.replay_protector s.locals.replay_state request.context.now)
          assign (λ l. record l { replay_consumed = done }))
          s

    -- `escrow.consume`
    abbrev pub consume_escrow :
        Option (Presentation → Exec E EscrowRecord) → Option String → Exec (Session E) (Unit {0})
    consume_escrow none escrow_id = pure tt
    consume_escrow (some consume) none = refuse (refusal_of "escrow" "ESCROW_REFERENCE_MISSING")
    consume_escrow (some consume) (some id) =
        within (
          consume (record {
            escrow_id = id;
            pccb_id = request.pccb.pccb_id;
            capability = request.intent.action.capability;
            now = request.context.now;
          }))
        >> pure tt

    -- `effect_protector.claim_request`
    abbrev pub claim_ownership : Option (EffectProtector E) → Exec (Session E) (Unit {0})
    claim_ownership none = pure tt
    claim_ownership (some protector) = do
      reference ← within (claim_effect protector request)
      assign (λ l. record l { effect_reference = some reference })

    unfoldable pub acquired : Exec (Session E) BrokeredCredential
    acquired = do
      credential ← within (x.credential_broker.acquire request.intent request.pccb request.context)
      assign (λ l. record l { brokered_credential = some credential })
      pure credential
