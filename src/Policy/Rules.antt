-- ===== src/Policy/Rules.antt =====
-- The rules of actenon/policy/engine.py.
use actenon_kernel.Prelude.{
  Bool, List, Option, String, [], contains, false, if◌then◌else◌, keep, leb, ltb, map, nat_eq, none,
  not, some, sorted_set, string_eq, suc, true, zero, ◌&&◌, ◌*◌, ◌+◌, ◌==◌, ◌||◌, ◌∷◌,
}
use actenon_kernel.Json.{Fields, Json, arr, end, field, get, int, negsuc, null, pos, strings, ℤ}
use actenon_kernel.Contracts.{ActionIntent, DynamicContextInput, EvidenceRef, RuleEvaluation}

-- `PolicyRule`: any object with an `evaluate` method
abbrev pub PolicyRule : Type 0
PolicyRule = ActionIntent → DynamicContextInput → Option RuleEvaluation

-- a denial without details
abbrev pub denial : String → String → String → RuleEvaluation
denial rule_id reason_code summary = record {
  rule_id = rule_id;
  outcome = "deny";
  reason_code = reason_code;
  summary = summary;
  details = end;
  required_evidence = [];
  approver_types = [];
}

-- `IntentChronologyHardRule.evaluate`
unfoldable pub intent_chronology : PolicyRule
intent_chronology intent context =
    if ltb context.now intent.issued_at
    then some (
        denial "hard.intent.chronology" "INTENT_ISSUED_IN_FUTURE"
          "The action intent was issued in the future.")
    else if leb intent.expires_at context.now
    then some (denial "hard.intent.chronology" "INTENT_EXPIRED" "The action intent has expired.")
    else none

-- the lifetime that `IntentTtlHardRule` uses
abbrev pub lifetime_limit : ℤ → Option ℤ → ℤ
lifetime_limit default_max_ttl_seconds none = default_max_ttl_seconds
lifetime_limit default_max_ttl_seconds (some seconds) = seconds

abbrev invalid_max_ttl : RuleEvaluation
invalid_max_ttl =
    denial "hard.intent.ttl" "INVALID_MAX_TTL" "The runtime max TTL configuration is invalid."

-- `IntentTtlHardRule.evaluate` with its limit, in whole seconds and less than the 10^9 days at which
-- `timedelta` ends
unfoldable pub within_ttl : ℤ → ActionIntent → Option RuleEvaluation
within_ttl (negsuc n) intent = some invalid_max_ttl
within_ttl (pos zero) intent = some invalid_max_ttl
within_ttl (pos (suc n)) intent =
    if ltb (intent.issued_at + suc n * 1000000) intent.expires_at
    then some
        (record (denial "hard.intent.ttl" "INTENT_TTL_EXCEEDED"
          "The action intent exceeds the configured maximum lifetime.") {
            details = field "max_ttl_seconds" (int (pos (suc n))) end;
          })
    else none

unfoldable pub intent_ttl : ℤ → PolicyRule
unfolding within_ttl
intent_ttl default_max_ttl_seconds intent context =
    within_ttl (lifetime_limit default_max_ttl_seconds context.max_ttl_seconds) intent

abbrev pub is_empty {ℓ} : {A : Type ℓ} → List A → Bool
is_empty [] = true
is_empty (x ∷ xs) = false

-- `CapabilityScopeHardRule.evaluate`
unfoldable pub capability_scope : PolicyRule
capability_scope intent context =
    if not (is_empty context.scope_capabilities)
      && not (contains context.scope_capabilities intent.action.capability)
    then some
        (record (denial "hard.scope.capability" "CAPABILITY_OUTSIDE_SCOPE"
          "The requested capability is outside the protected endpoint scope.") {
            details = field "allowed_capabilities" (arr (strings context.scope_capabilities)) end;
          })
    else none

pub record TenantWorkflowRule : Type 0 where
  pub rule_id : String
  pub outcome : String
  pub summary : String
  pub reason_code : String
  pub tenant_ids : List String
  pub capabilities : List String
  pub required_fact_values : Fields
  pub required_evidence_types : List String
  pub approver_types : List String

unfoldable pub missing_evidence : TenantWorkflowRule → ActionIntent → List String
missing_evidence rule intent =
    let evidence_types = map (λ (e : EvidenceRef). e.type) intent.evidence_refs in
    sorted_set (keep (λ t. not (contains evidence_types t)) rule.required_evidence_types)

-- the evaluation of a workflow rule, without evidence or approvers
abbrev pub workflow_evaluation : TenantWorkflowRule → String → RuleEvaluation
workflow_evaluation rule outcome = record (denial rule.rule_id rule.reason_code rule.summary) {
  outcome = outcome;
}

-- what `get` gives, with Python's None for a missing key
abbrev pub value_or_null : Option Json → Json
value_or_null none = null
value_or_null (some v) = v

-- `value_eq` is Python's `==` of two values.
module _ (value_eq : Json → Json → Bool) where
  -- `facts.get(key)` of every required fact is as expected
  abbrev pub facts_match : Fields → Fields → Bool
  facts_match facts end = true
  facts_match facts (field key expected rest) =
      value_eq (value_or_null (get facts key)) expected && facts_match facts rest

  unfoldable pub workflow_applies : TenantWorkflowRule → ActionIntent → DynamicContextInput → Bool
  workflow_applies rule intent context =
      (is_empty rule.tenant_ids || contains rule.tenant_ids intent.tenant.tenant_id)
      && ((is_empty rule.capabilities || contains rule.capabilities intent.action.capability)
          && facts_match context.facts rule.required_fact_values)

  -- `TenantWorkflowRule.evaluate`
  unfoldable pub tenant_workflow : TenantWorkflowRule → PolicyRule
  unfolding workflow_applies missing_evidence
  tenant_workflow rule intent context =
      let missing = missing_evidence rule intent in
      if not (workflow_applies rule intent context)
      then none
      else if rule.outcome == "needs-evidence" && not (is_empty missing)
      then some (record (workflow_evaluation rule "needs-evidence") { required_evidence = missing })
      else if rule.outcome == "approval-required"
      then some (record (workflow_evaluation rule "approval-required") {
        approver_types =
            if is_empty rule.approver_types then context.approver_types else rule.approver_types;
      })
      else if rule.outcome == "deny"
      then some (workflow_evaluation rule "deny")
      else if rule.outcome == "allow"
      then some (workflow_evaluation rule "allow")
      else none
