-- ===== src/Policy/Tests.antt =====
-- A refund under one workflow rule, and each theorem at it.
use actenon_kernel.Prelude.{Bool, String, [], false, none, refl, some, true, ◌∷◌, ◌≡◌}
use actenon_kernel.Json.{Json, bool, end, field, pos}
use actenon_kernel.Core.Time.{Time}
use actenon_kernel.Contracts.{ActionIntent, DynamicContextInput, PartyRef, allowed}
use actenon_kernel.Policy.Rules.{
  TenantWorkflowRule, capability_scope, intent_chronology, intent_ttl, tenant_workflow,
  workflow_applies,
}
use actenon_kernel.Policy.Engine.{
  PolicyEngine, TenantWorkflowRuleLayer, evaluate, evaluate_rules, evaluate_workflow,
}
use actenon_kernel.Policy.Outcome.{evaluate_outcome, more_rules_allow_less, outcome_of}
use actenon_kernel.Policy.Window.{IsAdmissible, allowed-IsAdmissible, standard_rules}
use actenon_kernel.Policy.Blocks.{holding_rule_blocks}

abbrev agent : PartyRef
agent = record { type = "agent"; id = "a-1"; display_name = none; attributes = end }

abbrev refund : ActionIntent
refund = record {
  intent_id = "i-1";
  issued_at = 1000000;
  expires_at = 61000000;
  tenant = record { tenant_id = "t-1"; attributes = end };
  requester = agent;
  action = record {
    name = "refund";
    capability = "payment.refund";
    parameters = end;
    constraints = end;
    scope = end;
  };
  target = record { resource_type = "order"; resource_id = "o-1"; uri = none; selectors = end };
  idempotency_key = none;
  justification = none;
  context = end;
  evidence_refs = [];
  metadata = end;
  extensions = end;
}

abbrev at_endpoint : Time → DynamicContextInput
at_endpoint now = record {
  request_id = "r-1";
  audience = record { type = "service"; id = "edge"; uri = none };
  scope_capabilities = "payment.refund" ∷ [];
  now = now;
  facts = field "verified" (bool true) end;
  parameter_constraints = end;
  resource_selectors = [];
  required_evidence_types = [];
  approver_types = "manager" ∷ [];
  max_ttl_seconds = some (pos 60);
}

-- the equality of truth values, which the facts here are
abbrev flag_eq : Json → Json → Bool
flag_eq (bool true) (bool true) = true
flag_eq (bool false) (bool false) = true
flag_eq _ _ = false

abbrev rule_with : String → TenantWorkflowRule
rule_with outcome = record {
  rule_id = "refund";
  outcome = outcome;
  summary = "Refunds";
  reason_code = "REFUND";
  tenant_ids = "t-1" ∷ [];
  capabilities = "payment.refund" ∷ [];
  required_fact_values = field "verified" (bool true) end;
  required_evidence_types = "photo" ∷ "invoice" ∷ "photo" ∷ [];
  approver_types = [];
}

abbrev layer : String → TenantWorkflowRuleLayer
layer outcome = record {
  tenant_rules = ("t-1", tenant_workflow flag_eq (rule_with "allow") ∷ []) ∷ [];
  default_rules = tenant_workflow flag_eq (rule_with outcome) ∷ [];
}

abbrev engine : String → PolicyEngine
engine outcome = record {
  hard_rules = standard_rules (pos 900);
  tenant_workflow_rules = layer outcome;
}

refund-allowed : allowed (evaluate (engine "allow") refund (at_endpoint 5000000)) ≡ true
unfolding evaluate evaluate_workflow intent_chronology intent_ttl capability_scope tenant_workflow
refund-allowed = refl

-- the missing evidence is sorted, without repetition
evidence_asked :
    (evaluate (engine "needs-evidence") refund (at_endpoint 5000000)).required_evidence
    ≡ "invoice" ∷ "photo" ∷ []
unfolding evaluate evaluate_workflow intent_chronology intent_ttl capability_scope tenant_workflow
evidence_asked = refl

rule_applies : workflow_applies flag_eq (rule_with "deny") refund (at_endpoint 5000000) ≡ true
unfolding workflow_applies
rule_applies = refl

evaluate_outcome_example :
    (evaluate (engine "deny") refund (at_endpoint 5000000)).outcome
    ≡ outcome_of
        (evaluate_rules (standard_rules (pos 900)) refund (at_endpoint 5000000))
        (evaluate_workflow (layer "deny") refund (at_endpoint 5000000))
evaluate_outcome_example = evaluate_outcome (engine "deny") refund (at_endpoint 5000000)

more_rules_allow_less_example :
    allowed (
      evaluate
        (record { hard_rules = []; tenant_workflow_rules = layer "allow" })
        refund
        (at_endpoint 5000000))
    ≡ true
more_rules_allow_less_example =
    more_rules_allow_less [] (standard_rules (pos 900)) (layer "allow") refund (at_endpoint 5000000)
      refund-allowed

allowed-IsAdmissible_example : IsAdmissible (pos 900) refund (at_endpoint 5000000)
allowed-IsAdmissible_example =
    allowed-IsAdmissible (pos 900) [] (layer "allow") refund (at_endpoint 5000000) refund-allowed

holding_rule_blocks_example :
    allowed (evaluate (engine "deny") refund (at_endpoint 5000000)) ≡ false
holding_rule_blocks_example =
    holding_rule_blocks flag_eq (rule_with "deny") refund (at_endpoint 5000000) [] []
      (standard_rules (pos 900)) (("t-1", tenant_workflow flag_eq (rule_with "allow") ∷ []) ∷ [])
      rule_applies refl
