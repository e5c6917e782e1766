-- ===== src/Receipts.antt =====
-- actenon/receipts/factory.py: the artifacts of a decision, an execution and a refusal.
use actenon_kernel.Prelude.{
  Bool, Option, String, [], false, if◌then◌else◌, map, nat_eq, none, not, some, string_eq, true,
  zero, ◌==◌, ◌||◌, ◌∷◌,
}
use actenon_kernel.Json.{
  Fields, Json, arr, bool, end, field, float, get, int, nil, null, obj, or_empty, pos, put, str,
  strings,
}
use actenon_kernel.Core.Refusal.{Exec, Refusal, Result, answer, ok, pure, raised, refused, ◌>>=◌}
use actenon_kernel.Core.Time.{Time}
use actenon_kernel.Contracts.{
  ActionHashSpec, ActionIntent, CorrelationRef, DynamicContextInput, PolicyDecision, Receipt,
  RefusalRecord, RuleEvaluation,
}

-- `bool(value)`
abbrev pub truthy : Json → Bool
truthy null = false
truthy (bool b) = b
truthy (int (pos zero)) = false
truthy (int _) = true
truthy (float s) = not (s == "0.0" || s == "-0.0")
truthy (str s) = not (s == "")
truthy (arr nil) = false
truthy (arr _) = true
truthy (obj end) = false
truthy (obj _) = true

-- `if payload.get(key): target[key] = ...`
abbrev pub put_truthy : Fields → String → Option Json → Fields
put_truthy target key none = target
put_truthy target key (some v) = if truthy v then put target key v else target

-- The texts and details of the refund and the invoice domain: none if the intent is of neither.
-- They may raise, as for a parameter that the intent does not have.
pub record DomainTexts : Type 0 where
  pub for_decision :
      ActionIntent
      → PolicyDecision
      → DynamicContextInput
      → Fields
      → Result (Option (String × Fields))
  pub for_execution : ActionIntent → Option Fields → Result (Option (String × Fields))
  pub for_refusal : ActionIntent → String → Result (Option (String × Fields))

abbrev pub texts_or : String × Fields → Result (Option (String × Fields)) → Result (String × Fields)
texts_or general (ok none) = ok general
texts_or general (ok (some domain)) = ok domain
texts_or general (refused exc) = refused exc
texts_or general raised = raised

abbrev pub no_correlation : CorrelationRef
no_correlation = record {
  pccb_id = none;
  escrow_id = none;
  refusal_id = none;
  receipt_id = none;
  request_id = none;
  action_hash = none;
  execution_attempt_id = none;
  protocol_version = none;
  execution_mode = none;
  verifier_identity = none;
  target_digest = none;
}

-- `follow_up` of a decision
abbrev pub follow_up_of : PolicyDecision → Fields
follow_up_of d =
    let approval =
      if d.outcome == "approval-required"
      then field "approver_types" (arr (strings d.approver_types))
          (field "instructions" (str "Additional approval is required before execution.") end)
      else end in
    if d.outcome == "needs-evidence"
    then put (put approval "required_evidence" (arr (strings d.required_evidence))) "instructions"
        (str "Additional evidence is required before execution.")
    else approval

-- `side_effects` of an execution
abbrev pub side_effects_of : Fields → Fields
side_effects_of payload =
    put_truthy
      (put_truthy
        (put_truthy
          (put_truthy (field "state" (str "completed") end) "external_reference"
            (get payload "external_reference"))
          "provider_reference" (get payload "provider_reference"))
        "reconciliation_status" (get payload "reconciliation_status"))
      "resource_version" (get payload "resource_version")

abbrev pub refused_correlation : Option CorrelationRef → CorrelationRef
refused_correlation none = no_correlation
refused_correlation (some c) = record no_correlation {
  pccb_id = c.pccb_id;
  escrow_id = c.escrow_id;
  action_hash = c.action_hash;
}

-- The receipts, with their summary and details and with the id that the factory has made.
abbrev pub decision_receipt_of :
    String × Fields
    → String
    → ActionIntent
    → PolicyDecision
    → DynamicContextInput
    → Option String
    → Option String
    → Option ActionHashSpec
    → Receipt
decision_receipt_of (summary, details) id intent decision context pccb_id escrow_id action_hash =
    record {
      receipt_id = id;
      intent_id = intent.intent_id;
      occurred_at = context.now;
      outcome = decision.outcome;
      tenant = intent.tenant;
      subject = intent.requester;
      action = intent.action;
      target = intent.target;
      summary = summary;
      phase = some "decision";
      correlation = some (record no_correlation {
        pccb_id = pccb_id;
        escrow_id = escrow_id;
        request_id = some context.request_id;
        action_hash = action_hash;
      });
      reason_codes = decision.reason_codes;
      follow_up = follow_up_of decision;
      side_effects = field "state" (str "none") end;
      details = details;
      metadata = end;
      extensions = end;
    }

abbrev pub execution_receipt_of :
    String × Fields
    → String
    → ActionIntent
    → DynamicContextInput
    → String
    → Option String
    → Option Fields
    → Option ActionHashSpec
    → Receipt
execution_receipt_of (summary, details) id intent context pccb_id escrow_id payload action_hash =
    record {
      receipt_id = id;
      intent_id = intent.intent_id;
      occurred_at = context.now;
      outcome = "executed";
      tenant = intent.tenant;
      subject = intent.requester;
      action = intent.action;
      target = intent.target;
      summary = summary;
      phase = some "execution";
      correlation = some (record no_correlation {
        pccb_id = some pccb_id;
        escrow_id = escrow_id;
        request_id = some context.request_id;
        action_hash = action_hash;
      });
      reason_codes = [];
      follow_up = end;
      side_effects = side_effects_of (or_empty payload);
      details = details;
      metadata = end;
      extensions = end;
    }

abbrev pub refused_receipt_of :
    String × Fields → String → ActionIntent → DynamicContextInput → RefusalRecord → Receipt
refused_receipt_of (summary, details) id intent context refusal = record {
  receipt_id = id;
  intent_id = intent.intent_id;
  occurred_at = context.now;
  outcome = "refused";
  tenant = intent.tenant;
  subject = intent.requester;
  action = intent.action;
  target = intent.target;
  summary = summary;
  phase = some "execution";
  correlation = some (record (refused_correlation refusal.correlation) {
    refusal_id = some refusal.refusal_id;
    request_id = some context.request_id;
  });
  reason_codes = refusal.reason_code ∷ [];
  follow_up = end;
  side_effects = field "state" (str "none") end;
  details = details;
  metadata = end;
  extensions = end;
}

abbrev pub rules_of : PolicyDecision → Fields
rules_of decision =
    field "rule_evaluations"
      (arr (strings (map (λ (e : RuleEvaluation). e.rule_id) decision.rule_evaluations))) end

module _ {E : Type 0} (domain : DomainTexts) (receipt_id_factory : Exec E String) where
  -- `ReceiptFactory.create_decision_receipt`
  unfoldable pub create_decision_receipt :
      ActionIntent
      → PolicyDecision
      → DynamicContextInput
      → Option String
      → Option String
      → Option ActionHashSpec
      → Exec E Receipt
  create_decision_receipt intent decision context pccb_id escrow_id action_hash = do
    texts ← answer (
        texts_or (decision.summary, rules_of decision)
          (domain.for_decision intent decision context (rules_of decision)))
    id ← receipt_id_factory
    pure (decision_receipt_of texts id intent decision context pccb_id escrow_id action_hash)

  -- `create_execution_receipt`
  unfoldable pub create_execution_receipt :
      ActionIntent
      → DynamicContextInput
      → String
      → Option String
      → Option Fields
      → Option ActionHashSpec
      → Exec E Receipt
  create_execution_receipt intent context pccb_id escrow_id payload action_hash = do
    texts ← answer (
        texts_or ("The protected action executed successfully.", or_empty payload)
          (domain.for_execution intent payload))
    id ← receipt_id_factory
    pure (execution_receipt_of texts id intent context pccb_id escrow_id payload action_hash)

  -- `create_refused_receipt`; `message` is the refusal's message
  unfoldable pub create_refused_receipt :
      String → ActionIntent → DynamicContextInput → RefusalRecord → Exec E Receipt
  create_refused_receipt message intent context refusal = do
    texts ← answer (texts_or (message, end) (domain.for_refusal intent refusal.reason_code))
    id ← receipt_id_factory
    pure (refused_receipt_of texts id intent context refusal)

-- a field of an intent that may be missing
abbrev pub of_intent {ℓ} : {A : Type ℓ} → (ActionIntent → A) → Option ActionIntent → Option A
of_intent f none = none
of_intent f (some i) = some (f i)

-- `RefusalFactory.create_from_exception`, with the id that its factory makes
unfoldable pub create_from_exception :
    String
    → Refusal
    → Time
    → Option ActionIntent
    → DynamicContextInput
    → Option String
    → Option String
    → Option ActionHashSpec
    → RefusalRecord
create_from_exception id exc occurred_at intent context pccb_id escrow_id action_hash = record {
  refusal_id = id;
  category = exc.category;
  reason_code = exc.refusal_code;
  retryable = exc.retryable;
  refused_at = occurred_at;
  intent_id = of_intent (λ (i : ActionIntent). i.intent_id) intent;
  tenant = of_intent (λ (i : ActionIntent). i.tenant) intent;
  subject = of_intent (λ (i : ActionIntent). i.requester) intent;
  audience = some context.audience;
  action = of_intent (λ (i : ActionIntent). i.action) intent;
  target = of_intent (λ (i : ActionIntent). i.target) intent;
  correlation = some (record no_correlation {
    pccb_id = pccb_id;
    escrow_id = escrow_id;
    request_id = some context.request_id;
    action_hash = action_hash;
  });
  rule_refs = exc.rule_refs;
  details = exc.details;
  extensions = end;
}
