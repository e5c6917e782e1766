-- ===== src/Policy/Outcome.antt =====
-- The outcome of `PolicyEngine.evaluate` (actenon/policy/engine.py), as a function of the evaluations.
use actenon_kernel.Prelude.{
  Bool, Bool-cases, List, Option-cases, String, [], any, any-append, ap, arith, false,
  if◌then◌else◌, inl, inr, keep, nat_eq, not, refl, string_eq, true, ◌&&◌, ◌++◌, ◌==◌, ◌∷◌, ◌≡◌,
  ◌⊎◌,
}
use actenon_kernel.Contracts.{ActionIntent, DynamicContextInput, RuleEvaluation, allowed}
use actenon_kernel.Policy.Rules.{PolicyRule, denial}
use actenon_kernel.Policy.Engine.{
  PolicyEngine, TenantWorkflowRuleLayer, evaluate, evaluate_rules, evaluate_workflow, has_outcome,
  on_allows, on_approvals, on_denials, on_evidence, on_hard_denials, on_workflow,
}

-- The precedence of the outcomes: a denial, missing evidence, an approval, and then an allowance.
abbrev pub precedence : Bool → Bool → Bool → Bool → Bool → String
precedence hard_denial denial evidence approval allowance =
    if hard_denial
    then "deny"
    else if denial
    then "deny"
    else if evidence
    then "needs-evidence"
    else if approval
    then "approval-required"
    else if allowance
    then "allow"
    else "deny"

abbrev pub outcome_of : List RuleEvaluation → List RuleEvaluation → String
outcome_of hard workflow =
    precedence (any (has_outcome "deny") hard) (any (has_outcome "deny") workflow)
      (any (has_outcome "needs-evidence") workflow) (any (has_outcome "approval-required") workflow)
      (any (has_outcome "allow") workflow)

-- what is kept, by whether anything is
keep-cases :
    {A : Type 0} (p : A → Bool) (xs : List A)
    → ((keep p xs ≡ []) × (any p xs ≡ false))
      ⊎ ((x : A) × (rest : List A) × (keep p xs ≡ x ∷ rest) × (any p xs ≡ true))
keep-cases p [] = inl (refl, refl)
keep-cases p (x ∷ xs) = elim (Bool-cases (p x)) [
  | inl e ↦ inr (x, keep p xs, rw e refl, rw e refl)
  | inr e ↦ rw e (keep-cases p xs)
]

module _ (hard workflow : List RuleEvaluation) (evaluations : List RuleEvaluation) where
  outcome_allows :
      (on_allows (keep (has_outcome "allow") workflow) evaluations).outcome
      ≡ (if any (has_outcome "allow") workflow then "allow" else "deny")
  unfolding on_allows
  outcome_allows = elim (keep-cases (has_outcome "allow") workflow) [
    | inl (e, f) ↦ rw (e, f) refl
    | inr (x, rest, e, f) ↦ rw (e, f) refl
  ]

  outcome_approvals :
      (on_approvals (keep (has_outcome "approval-required") workflow) workflow evaluations).outcome
      ≡ (if any (has_outcome "approval-required") workflow
          then "approval-required"
          else if any (has_outcome "allow") workflow
          then "allow"
          else "deny")
  unfolding on_approvals
  outcome_approvals = elim (keep-cases (has_outcome "approval-required") workflow) [
    | inl (e, f) ↦ rw (e, f) outcome_allows
    | inr (x, rest, e, f) ↦ rw (e, f) refl
  ]

  outcome_evidence :
      (on_evidence (keep (has_outcome "needs-evidence") workflow) workflow evaluations).outcome ≡ (
        if any (has_outcome "needs-evidence") workflow
        then "needs-evidence"
        else if any (has_outcome "approval-required") workflow
        then "approval-required"
        else if any (has_outcome "allow") workflow
        then "allow"
        else "deny")
  unfolding on_evidence
  outcome_evidence = elim (keep-cases (has_outcome "needs-evidence") workflow) [
    | inl (e, f) ↦ rw (e, f) outcome_approvals
    | inr (x, rest, e, f) ↦ rw (e, f) refl
  ]

  outcome_denials :
      (on_denials (keep (has_outcome "deny") workflow) workflow evaluations).outcome
      ≡ outcome_of [] workflow
  unfolding on_denials
  outcome_denials = elim (keep-cases (has_outcome "deny") workflow) [
    | inl (e, f) ↦ rw (e, f) outcome_evidence
    | inr (x, rest, e, f) ↦ rw (e, f) refl
  ]

outcome_workflow :
    (workflow evaluations : List RuleEvaluation)
    → (on_workflow workflow evaluations).outcome ≡ outcome_of [] workflow
unfolding on_workflow
outcome_workflow [] evaluations = refl
outcome_workflow (e ∷ es) evaluations = outcome_denials [] (e ∷ es) (evaluations ++ e ∷ es)

-- The outcome of `PolicyEngine.evaluate` follows one precedence: a denial by a hard rule, a denial
-- by a workflow rule, missing evidence, a required approval, an allowance, and a denial if no rule
-- speaks.
pub evaluate_outcome :
    (engine : PolicyEngine) (intent : ActionIntent) (context : DynamicContextInput)
    → (evaluate engine intent context).outcome
      ≡ outcome_of
          (evaluate_rules engine.hard_rules intent context)
          (evaluate_workflow engine.tenant_workflow_rules intent context)
unfolding evaluate on_hard_denials
evaluate_outcome engine intent context =
    elim (keep-cases (has_outcome "deny") (evaluate_rules engine.hard_rules intent context)) [
      | inl (e, f) ↦
          rw (e, f)
            (outcome_workflow (evaluate_workflow engine.tenant_workflow_rules intent context)
              (evaluate_rules engine.hard_rules intent context))
      | inr (x, rest, e, f) ↦ rw (e, f) refl
    ]

precedence-allow :
    (a b c d e : Bool)
    → (precedence a b c d e == "allow") ≡ (not a && (not b && (not c && (not d && e))))
precedence-allow true b c d e = refl
precedence-allow false true c d e = refl
precedence-allow false false true d e = refl
precedence-allow false false false true e = refl
precedence-allow false false false false true = refl
precedence-allow false false false false false = refl

-- An intent is allowed exactly when no hard rule and no workflow rule denies, none asks for evidence
-- or approval, and some workflow rule allows.
pub outcome_of-allow :
    (hard workflow : List RuleEvaluation)
    → (outcome_of hard workflow == "allow") ≡ (
        not (any (has_outcome "deny") hard)
        && (not (any (has_outcome "deny") workflow)
            && (not (any (has_outcome "needs-evidence") workflow)
                && (not (any (has_outcome "approval-required") workflow)
                    && any (has_outcome "allow") workflow))))
outcome_of-allow hard workflow =
    precedence-allow (any (has_outcome "deny") hard) (any (has_outcome "deny") workflow)
      (any (has_outcome "needs-evidence") workflow) (any (has_outcome "approval-required") workflow)
      (any (has_outcome "allow") workflow)

pub evaluate_rules-append :
    (rules more : List PolicyRule) (intent : ActionIntent) (context : DynamicContextInput)
    → evaluate_rules (rules ++ more) intent context
      ≡ evaluate_rules rules intent context ++ evaluate_rules more intent context
unfolding evaluate_rules
evaluate_rules-append [] more intent context = refl
evaluate_rules-append (rule ∷ rules) more intent context =
    elim (Option-cases (rule intent context)) [
      | inl e ↦ rw e (evaluate_rules-append rules more intent context)
      | inr (a, e) ↦ rw e (ap (a ∷◌) (evaluate_rules-append rules more intent context))
    ]

-- An intent that is allowed with more hard rules is allowed without them: adding hard rules never
-- allows more.
pub more_rules_allow_less :
    (rules more : List PolicyRule) (layer : TenantWorkflowRuleLayer) (intent : ActionIntent)
    (context : DynamicContextInput)
    → allowed (
        evaluate
          (record { hard_rules = rules ++ more; tenant_workflow_rules = layer })
          intent
          context)
      ≡ true
    → allowed
        (evaluate (record { hard_rules = rules; tenant_workflow_rules = layer }) intent context)
      ≡ true
more_rules_allow_less rules more layer intent context h =
    let short : PolicyEngine = record { hard_rules = rules; tenant_workflow_rules = layer } in
    let long : PolicyEngine = record {
      hard_rules = rules ++ more;
      tenant_workflow_rules = layer;
    } in
    let workflow = evaluate_workflow layer intent context in
    let yes =
      rw
        (
          evaluate_outcome long intent context,
          evaluate_rules-append rules more intent context,
          outcome_of-allow
              (evaluate_rules rules intent context ++ evaluate_rules more intent context) workflow,
          any-append (has_outcome "deny") (evaluate_rules rules intent context)
              (evaluate_rules more intent context),
        )
        at h in
    rw
      (
        evaluate_outcome short intent context,
        outcome_of-allow (evaluate_rules rules intent context) workflow,
      )
      (ground arith)
