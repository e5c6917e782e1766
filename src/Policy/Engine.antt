-- ===== src/Policy/Engine.antt =====
-- `HardRuleEngine`, `TenantWorkflowRuleLayer` and `PolicyEngine` of actenon/policy/engine.py.
use actenon_kernel.Prelude.{
  Bool, List, Option, String, [], keep, map, nat_eq, none, some, sorted_set, string_eq, ◌++◌, ◌==◌,
  ◌∷◌,
}
use actenon_kernel.Contracts.{ActionIntent, DynamicContextInput, PolicyDecision, RuleEvaluation}
use actenon_kernel.Dict.{Dict, lookup}
use actenon_kernel.Policy.Rules.{PolicyRule, denial}

pub record TenantWorkflowRuleLayer : Type 0 where
  pub tenant_rules : Dict (List PolicyRule)
  pub default_rules : List PolicyRule

pub record PolicyEngine : Type 0 where
  pub hard_rules : List PolicyRule
  pub tenant_workflow_rules : TenantWorkflowRuleLayer

-- the loop of `HardRuleEngine.evaluate` and `TenantWorkflowRuleLayer.evaluate`
unfoldable pub evaluate_rules :
    List PolicyRule → ActionIntent → DynamicContextInput → List RuleEvaluation
evaluate_rules [] intent context = []
evaluate_rules (rule ∷ rules) intent context =
    let rest = evaluate_rules rules intent context in
    elim (rule intent context) [ none ↦ rest | some evaluation ↦ evaluation ∷ rest ]

-- `tenant_rules.get(tenant_id, ())`
abbrev pub rules_or_none : Option (List PolicyRule) → List PolicyRule
rules_or_none none = []
rules_or_none (some rules) = rules

-- `TenantWorkflowRuleLayer.evaluate`
unfoldable pub evaluate_workflow :
    TenantWorkflowRuleLayer → ActionIntent → DynamicContextInput → List RuleEvaluation
evaluate_workflow layer intent context =
    evaluate_rules
      (layer.default_rules ++ rules_or_none (lookup intent.tenant.tenant_id layer.tenant_rules))
      intent context

abbrev pub has_outcome : String → RuleEvaluation → Bool
has_outcome outcome e = e.outcome == outcome

-- the decision that `items`, of which `first` is the first, lead to
abbrev pub decided :
    String → RuleEvaluation → List RuleEvaluation → List RuleEvaluation → PolicyDecision
decided outcome first items evaluations = record {
  outcome = outcome;
  summary = first.summary;
  rule_evaluations = evaluations;
  reason_codes = map (λ (e : RuleEvaluation). e.reason_code) items;
  required_evidence = [];
  approver_types = [];
}

-- the texts of all the items
abbrev pub gathered : (RuleEvaluation → List String) → List RuleEvaluation → List String
gathered texts [] = []
gathered texts (e ∷ es) = texts e ++ gathered texts es

abbrev pub default_deny : RuleEvaluation
default_deny =
    denial "workflow.default_deny" "NO_WORKFLOW_RULE_MATCH"
      "No tenant workflow rule matched the action intent."

abbrev pub fallback_deny : RuleEvaluation
fallback_deny =
    denial "workflow.no_allow" "WORKFLOW_DENIED"
      "The workflow layer did not produce an allow decision."

-- The steps of `PolicyEngine.evaluate` after each list comprehension, from the last to the first.
-- `evaluations` are those that the decision reports.
unfoldable pub on_allows : List RuleEvaluation → List RuleEvaluation → PolicyDecision
on_allows [] evaluations =
    decided "deny" fallback_deny (fallback_deny ∷ []) (evaluations ++ fallback_deny ∷ [])
on_allows (e ∷ es) evaluations = decided "allow" e (e ∷ es) evaluations

unfoldable pub on_approvals :
    List RuleEvaluation → List RuleEvaluation → List RuleEvaluation → PolicyDecision
unfolding on_allows
on_approvals [] workflow evaluations = on_allows (keep (has_outcome "allow") workflow) evaluations
on_approvals (e ∷ es) workflow evaluations =
    record (decided "approval-required" e (e ∷ es) evaluations) {
      approver_types = sorted_set (gathered (λ (i : RuleEvaluation). i.approver_types) (e ∷ es));
    }

unfoldable pub on_evidence :
    List RuleEvaluation → List RuleEvaluation → List RuleEvaluation → PolicyDecision
unfolding on_approvals
on_evidence [] workflow evaluations =
    on_approvals (keep (has_outcome "approval-required") workflow) workflow evaluations
on_evidence (e ∷ es) workflow evaluations =
    record (decided "needs-evidence" e (e ∷ es) evaluations) {
      required_evidence =
          sorted_set (gathered (λ (i : RuleEvaluation). i.required_evidence) (e ∷ es));
    }

unfoldable pub on_denials :
    List RuleEvaluation → List RuleEvaluation → List RuleEvaluation → PolicyDecision
unfolding on_evidence
on_denials [] workflow evaluations =
    on_evidence (keep (has_outcome "needs-evidence") workflow) workflow evaluations
on_denials (e ∷ es) workflow evaluations = decided "deny" e (e ∷ es) evaluations

unfoldable pub on_workflow : List RuleEvaluation → List RuleEvaluation → PolicyDecision
unfolding on_denials
on_workflow [] evaluations =
    decided "deny" default_deny (default_deny ∷ []) (evaluations ++ default_deny ∷ [])
on_workflow (e ∷ es) evaluations =
    on_denials (keep (has_outcome "deny") (e ∷ es)) (e ∷ es) (evaluations ++ e ∷ es)

-- The workflow rules are evaluated only if no hard rule denies.
unfoldable pub on_hard_denials :
    List RuleEvaluation
    → List RuleEvaluation
    → TenantWorkflowRuleLayer
    → ActionIntent
    → DynamicContextInput
    → PolicyDecision
unfolding evaluate_workflow on_workflow
on_hard_denials [] evaluations layer intent context =
    on_workflow (evaluate_workflow layer intent context) evaluations
on_hard_denials (e ∷ es) evaluations layer intent context = decided "deny" e (e ∷ es) evaluations

-- `PolicyEngine.evaluate`
unfoldable pub evaluate : PolicyEngine → ActionIntent → DynamicContextInput → PolicyDecision
unfolding on_hard_denials evaluate_rules
evaluate engine intent context =
    let evaluations = evaluate_rules engine.hard_rules intent context in
    on_hard_denials (keep (has_outcome "deny") evaluations) evaluations engine.tenant_workflow_rules
      intent context
