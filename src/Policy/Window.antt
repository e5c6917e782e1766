-- ===== src/Policy/Window.antt =====
-- The three hard rules of actenon/policy/engine.py, together.
use actenon_kernel.Prelude.{
  List, Option, Option-cases, String, [], any, ap, arith, contains, eq_iff, false, inl, inr, none,
  refl, some, string_eq, suc, sym, true, zero, ℕ, ◌*◌, ◌++◌, ◌+◌, ◌<◌, ◌∙◌, ◌∷◌, ◌≡◌, ◌≤◌, ◌⊎◌,
}
use actenon_kernel.Json.{negsuc, pos, ℤ}
use actenon_kernel.Contracts.{ActionIntent, DynamicContextInput, RuleEvaluation, allowed}
use actenon_kernel.Policy.Rules.{
  PolicyRule, capability_scope, intent_chronology, intent_ttl, is_empty, lifetime_limit, within_ttl,
}
use actenon_kernel.Policy.Engine.{
  PolicyEngine, TenantWorkflowRuleLayer, evaluate, evaluate_rules, evaluate_workflow, has_outcome,
}
use actenon_kernel.Policy.Outcome.{evaluate_outcome, outcome_of-allow}

-- The rules with which the endpoints are built, with the limit of `IntentTtlHardRule`.
abbrev pub standard_rules : ℤ → List PolicyRule
standard_rules limit = intent_chronology ∷ intent_ttl limit ∷ capability_scope ∷ []

-- An intent that is current, lives no longer than it may, and stays in the scope of the endpoint.
pub record IsAdmissible (limit : ℤ) (intent : ActionIntent) (context : DynamicContextInput)
    : Type 0 where
  pub begun : intent.issued_at ≤ context.now
  pub current : context.now < intent.expires_at
  pub short_lived :
      (seconds : ℕ) × (lifetime_limit limit context.max_ttl_seconds ≡ pos (suc seconds))
      × (intent.expires_at ≤ intent.issued_at + suc seconds * 1000000)
  pub in_scope :
      (is_empty context.scope_capabilities ≡ true)
      ⊎ (contains ⦃e = string_eq⦄ context.scope_capabilities intent.action.capability ≡ true)

-- a rule that does not deny has no evaluation, if all its evaluations are denials
denied_by :
    (rule : PolicyRule) (rules : List PolicyRule) (intent : ActionIntent)
    (context : DynamicContextInput)
    → any (has_outcome "deny") (evaluate_rules (rule ∷ rules) intent context) ≡ false
    → ((e : RuleEvaluation) → rule intent context ≡ some e → e.outcome ≡ "deny")
    → (rule intent context ≡ none)
      × (any (has_outcome "deny") (evaluate_rules rules intent context) ≡ false)
unfolding evaluate_rules
denied_by rule rules intent context h denials = elim (Option-cases (rule intent context)) [
  | inl e ↦ (e, rw e at h)
  | inr (a, e) ↦ ground (arith, rw e at h, denials a e, eq_iff a.outcome "deny")
]

abbrev outcome_or_deny : Option RuleEvaluation → String
outcome_or_deny none = "deny"
outcome_or_deny (some e) = e.outcome

outcome_found :
    (o : Option RuleEvaluation) (e : RuleEvaluation)
    → outcome_or_deny o ≡ "deny"
    → o ≡ some e
    → e.outcome ≡ "deny"
outcome_found o e d h = sym (ap outcome_or_deny h) ∙ d

module _ (intent : ActionIntent) (context : DynamicContextInput) where
  chronology_denies :
      (e : RuleEvaluation) → intent_chronology intent context ≡ some e → e.outcome ≡ "deny"
  unfolding intent_chronology
  chronology_denies e h = outcome_found (intent_chronology intent context) e (ground arith) h

  chronology_passed :
      intent_chronology intent context ≡ none
      → (intent.issued_at ≤ context.now) × (context.now < intent.expires_at)
  unfolding intent_chronology
  chronology_passed h = ground arith

  ttl_denies :
      (limit : ℤ) (e : RuleEvaluation) → within_ttl limit intent ≡ some e → e.outcome ≡ "deny"
  unfolding within_ttl
  ttl_denies (negsuc n) e h = outcome_found (within_ttl (negsuc n) intent) e refl h
  ttl_denies (pos zero) e h = outcome_found (within_ttl (pos zero) intent) e refl h
  ttl_denies (pos (suc n)) e h = outcome_found (within_ttl (pos (suc n)) intent) e (ground arith) h

  ttl_passed :
      (limit : ℤ)
      → within_ttl limit intent ≡ none
      → (seconds : ℕ) × (limit ≡ pos (suc seconds))
        × (intent.expires_at ≤ intent.issued_at + suc seconds * 1000000)
  unfolding within_ttl
  ttl_passed (negsuc n) h = absurd (cc h)
  ttl_passed (pos zero) h = absurd (cc h)
  ttl_passed (pos (suc n)) h = (n, refl, ground arith)

  scope_denies :
      (e : RuleEvaluation) → capability_scope intent context ≡ some e → e.outcome ≡ "deny"
  unfolding capability_scope
  scope_denies e h = outcome_found (capability_scope intent context) e (ground arith) h

  scope_passed :
      capability_scope intent context ≡ none
      → (is_empty context.scope_capabilities ≡ true)
        ⊎ (contains ⦃e = string_eq⦄ context.scope_capabilities intent.action.capability ≡ true)
  unfolding capability_scope
  scope_passed h = ground arith

-- An engine whose hard rules begin with the chronology, lifetime and capability rules allows only
-- an intent that has been issued, has not expired, lives no longer than the positive limit in
-- force, and has a capability in the endpoint's scope if that is not empty.
pub allowed-IsAdmissible :
    (limit : ℤ) (more : List PolicyRule) (layer : TenantWorkflowRuleLayer) (intent : ActionIntent)
    (context : DynamicContextInput)
    → allowed (
        evaluate
          (record { hard_rules = standard_rules limit ++ more; tenant_workflow_rules = layer })
          intent
          context)
      ≡ true
    → IsAdmissible limit intent context
allowed-IsAdmissible limit more layer intent context h =
    let engine : PolicyEngine = record {
      hard_rules = standard_rules limit ++ more;
      tenant_workflow_rules = layer;
    } in
    let no_denial : any (has_outcome "deny")
          (evaluate_rules (standard_rules limit ++ more) intent context)
        ≡ false =
      ground (
        arith,
        rw
            (
              evaluate_outcome engine intent context,
              outcome_of-allow (evaluate_rules (standard_rules limit ++ more) intent context)
                  (evaluate_workflow layer intent context),
            )
            at h,
      ) in
    let (begun, rest) =
      denied_by intent_chronology _ intent context no_denial (chronology_denies intent context) in
    let (short, more_rest) = denied_by (intent_ttl limit) _ intent context rest (
      unfold intent_ttl in
      ttl_denies intent context (lifetime_limit limit context.max_ttl_seconds)) in
    let (scoped, _) =
      denied_by capability_scope more intent context more_rest (scope_denies intent context) in
    let window = chronology_passed intent context begun in
    record {
      begun = window.0;
      current = window.1;
      short_lived =
          ttl_passed intent context (lifetime_limit limit context.max_ttl_seconds)
            (unfold intent_ttl in short);
      in_scope = scope_passed intent context scoped;
    }
