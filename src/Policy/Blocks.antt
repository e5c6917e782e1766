-- ===== src/Policy/Blocks.antt =====
-- Workflow rules that hold an intent back (actenon/policy/engine.py, `TenantWorkflowRule`).
use actenon_kernel.Prelude.{
  Bool, List, Option, Option-cases, [], any, any-append, arith, eq_iff, false, inl, inr, nat_eq,
  none, not, refl, some, string_eq, true, ◌&&◌, ◌++◌, ◌==◌, ◌||◌, ◌∷◌, ◌≡◌,
}
use actenon_kernel.Json.{Json}
use actenon_kernel.Contracts.{ActionIntent, DynamicContextInput, RuleEvaluation, allowed}
use actenon_kernel.Dict.{Dict, lookup}
use actenon_kernel.Policy.Rules.{
  PolicyRule, TenantWorkflowRule, is_empty, missing_evidence, tenant_workflow, workflow_applies,
}
use actenon_kernel.Policy.Engine.{
  PolicyEngine, TenantWorkflowRuleLayer, evaluate, evaluate_rules, evaluate_workflow, has_outcome,
  rules_or_none,
}
use actenon_kernel.Policy.Outcome.{evaluate_outcome, evaluate_rules-append, outcome_of-allow}

-- a rule that holds an intent back: it denies, asks for an approval, or asks for evidence that the
-- intent lacks
abbrev pub holds_back : TenantWorkflowRule → ActionIntent → Bool
holds_back rule intent =
    rule.outcome == "deny"
    || (rule.outcome == "approval-required"
        || (rule.outcome == "needs-evidence" && not (is_empty (missing_evidence rule intent))))

abbrev is_obstacle : RuleEvaluation → Bool
is_obstacle e =
    has_outcome "deny" e || (has_outcome "needs-evidence" e || has_outcome "approval-required" e)

any-or :
    (es : List RuleEvaluation)
    → any is_obstacle es ≡ (
        any (has_outcome "deny") es
        || (any (has_outcome "needs-evidence") es || any (has_outcome "approval-required") es))
any-or [] = refl
any-or (e ∷ es) = ground (arith, any-or es)

module _ (value_eq : Json → Json → Bool) (rule : TenantWorkflowRule) (intent : ActionIntent)
    (context : DynamicContextInput) where
  abbrev is_some_obstacle : Option RuleEvaluation → Bool
  is_some_obstacle none = false
  is_some_obstacle (some e) = is_obstacle e

  obstacle :
      workflow_applies value_eq rule intent context ≡ true
      → holds_back rule intent ≡ true
      → is_some_obstacle (tenant_workflow value_eq rule intent context) ≡ true
  unfolding tenant_workflow
  obstacle applies holds = ground (
    arith,
    eq_iff rule.outcome "deny",
    eq_iff rule.outcome "approval-required",
    eq_iff rule.outcome "needs-evidence",
  )

  any-rule :
      (r : PolicyRule) (rules : List PolicyRule)
      → any is_obstacle (evaluate_rules (r ∷ rules) intent context) ≡ (
          is_some_obstacle (r intent context)
          || any is_obstacle (evaluate_rules rules intent context))
  unfolding evaluate_rules
  any-rule r rules = elim (Option-cases (r intent context)) [
    | inl e ↦ rw e refl
    | inr (a, e) ↦ rw e refl
  ]

  obstacle_found :
      (before after : List PolicyRule)
      → workflow_applies value_eq rule intent context ≡ true
      → holds_back rule intent ≡ true
      → any is_obstacle
          (evaluate_rules (before ++ tenant_workflow value_eq rule ∷ after) intent context)
        ≡ true
  obstacle_found before after applies holds =
      rw
        (
          evaluate_rules-append before (tenant_workflow value_eq rule ∷ after) intent context,
          any-append is_obstacle (evaluate_rules before intent context)
              (evaluate_rules (tenant_workflow value_eq rule ∷ after) intent context),
        )
        (rw (any-rule (tenant_workflow value_eq rule) after, obstacle applies holds) (ground arith))

  -- A default workflow rule that applies to an intent and denies it, asks for an approval, or asks
  -- for evidence that the intent lacks, keeps the intent from being allowed, wherever the rule
  -- stands and whatever the other rules are.
  pub holding_rule_blocks :
      (before after : List PolicyRule) (hard_rules : List PolicyRule)
      (tenant_rules : Dict (List PolicyRule))
      → workflow_applies value_eq rule intent context ≡ true
      → holds_back rule intent ≡ true
      → allowed (
          evaluate
            (record {
              hard_rules = hard_rules;
              tenant_workflow_rules = record {
                tenant_rules = tenant_rules;
                default_rules = before ++ tenant_workflow value_eq rule ∷ after;
              };
            })
            intent
            context)
        ≡ false
  unfolding evaluate_workflow
  holding_rule_blocks before after hard_rules tenant_rules applies holds =
      let rules = before ++ tenant_workflow value_eq rule ∷ after in
      let layer : TenantWorkflowRuleLayer = record {
        tenant_rules = tenant_rules;
        default_rules = rules;
      } in
      let engine : PolicyEngine = record {
        hard_rules = hard_rules;
        tenant_workflow_rules = layer;
      } in
      let own = rules_or_none (lookup intent.tenant.tenant_id tenant_rules) in
      let there : any is_obstacle (evaluate_workflow layer intent context) ≡ true =
        rw
          (
            evaluate_rules-append rules own intent context,
            any-append is_obstacle (evaluate_rules rules intent context)
                (evaluate_rules own intent context),
            obstacle_found before after applies holds,
          )
          refl in
      rw
        (
          evaluate_outcome engine intent context,
          outcome_of-allow (evaluate_rules hard_rules intent context)
              (evaluate_workflow layer intent context),
        )
        (ground (arith, there, rw (any-or (evaluate_workflow layer intent context)) at there))
