-- ===== src/Kernel/Submit.antt =====
-- `ProtectedExecutionKernel.submit_intent`.
use actenon_kernel.Prelude.{
  Bool, Option, String, false, if◌then◌else◌, keep, map, nat_eq, none, not, some, string_eq, ◌==◌,
  ◌||◌,
}
use actenon_kernel.Json.{Fields, Json, arr, end, field, str, strings}
use actenon_kernel.Contracts.{
  ActionIntent, DynamicContextInput, Pccb, PolicyDecision, Receipt, RefusalRecord, RuleEvaluation,
}
use actenon_kernel.Core.Refusal.{
  Exec, Refusal, Result, answer, ok, proof_error, pure, raised, refused, ◌>>=◌, ◌>>◌,
}
use actenon_kernel.Policy.{PolicyEngine, evaluate, has_outcome}
use actenon_kernel.Minter.{Minter, Minting, mint}
use actenon_kernel.Verifier.{Libraries}
use actenon_kernel.Receipts.{create_decision_receipt, create_from_exception}
use actenon_kernel.Escrow.{EscrowRecord, Issue}
use actenon_kernel.Executor.{Outcomes, first_or}
use actenon_kernel.Kernel.Bindings.{first_changed, required_matches}

pub record AdmissionResult : Type 0 where
  pub intent : Option ActionIntent
  pub decision : Option PolicyDecision
  pub receipt : Option Receipt
  pub refusal : Option RefusalRecord
  pub pccb : Option Pccb
  pub escrow_id : Option String

-- What the seal client does: a proof, a `ProofSealError`, or another exception.
pub data SealAnswer : Type 0 where
  sealed : Pccb → SealAnswer
  seal_error : Refusal → SealAnswer
  seal_failed : SealAnswer

-- The fields of a `ProtectedExecutionKernel`, over the environment of its collaborators. A store
-- without a `put` method is none. `value_eq` is Python's == of two dicts, and `message` the message
-- of a refusal.
pub record ProtectedExecutionKernel (E : Type 0) : Type 0 where
  pub intake : Json → Exec E ActionIntent
  pub policy_engine : PolicyEngine
  pub libraries : Libraries
  pub pccb_minter : Minter
  pub issue_escrow : Issue → Exec E EscrowRecord
  pub outcomes : Outcomes E
  pub put_intent : Option (ActionIntent → Exec E (Unit {0}))
  pub put_pccb : Option (Pccb → Exec E (Unit {0}))
  pub escrow_id_factory : Exec E String
  pub seal :
      Option (ActionIntent → PolicyDecision → DynamicContextInput → Pccb → E → SealAnswer × E)
  pub require_proof_seal : Bool
  pub value_eq : Fields → Fields → Bool

-- `PolicyDecisionError` of a denial
abbrev pub denial : PolicyDecision → Refusal
denial d = record {
  category = "policy";
  refusal_code = first_or "POLICY_DENIED" d.reason_codes;
  retryable = false;
  rule_refs =
      map (λ (e : RuleEvaluation). e.rule_id) (keep (has_outcome "deny") d.rule_evaluations);
  details = field "reason_codes" (arr (strings d.reason_codes)) end;
}

abbrev pub map_option {ℓ} : {A B : Type ℓ} → (A → B) → Option A → Option B
map_option f none = none
map_option f (some a) = some (f a)

abbrev pub result_of : ActionIntent → PolicyDecision → AdmissionResult
result_of intent decision = record {
  intent = some intent;
  decision = some decision;
  receipt = none;
  refusal = none;
  pccb = none;
  escrow_id = none;
}

-- what `issue` of the escrow is given
abbrev pub issue_for : ActionIntent → String → Pccb → Issue
issue_for intent escrow_id pccb = record {
  escrow_id = escrow_id;
  pccb_id = pccb.pccb_id;
  capability = intent.action.capability;
  expires_at = pccb.expires_at;
  metadata = field "intent_id" (str intent.intent_id) end;
}

-- a store that may be missing
abbrev pub store_in {ℓ} :
    {A : Type ℓ} {E : Type ℓ} → Option (A → Exec E (Unit {ℓ})) → A → Exec E (Unit {ℓ})
store_in none a e = (ok tt, e)
store_in (some store) a e = store a e

module _ {E : Type 0} (k : ProtectedExecutionKernel E) (context : DynamicContextInput) where
  -- a refusal, written
  abbrev pub write_refusal_of :
      Refusal → Option ActionIntent → Option Pccb → Option String → Exec E RefusalRecord
  write_refusal_of exc intent pccb escrow_id = do
    id ← k.outcomes.refusal_id_factory
    let refusal =
        create_from_exception id exc context.now intent context
          (map_option (λ (p : Pccb). p.pccb_id) pccb) escrow_id
          (map_option (λ (p : Pccb). p.action_hash) pccb)
    k.outcomes.write_refusal refusal
    pure refusal

  abbrev pub decision_receipt :
      ActionIntent → PolicyDecision → Option Pccb → Option String → Exec E Receipt
  decision_receipt intent decision pccb escrow_id =
      create_decision_receipt k.outcomes.domain k.outcomes.receipt_id_factory intent decision
        context (map_option (λ (p : Pccb). p.pccb_id) pccb) escrow_id
        (map_option (λ (p : Pccb). p.action_hash) pccb)

  -- `_validated_execution_pccb`, with the name of the first field that was changed
  abbrev pub substituted : Pccb → Option String → Result Pccb
  substituted p none = ok p
  substituted p (some field_name) =
      refused
        (record (proof_error "PROOF_SEAL_INVALID") { details = field "field" (str field_name) end })

  -- `_resolve_execution_pccb` with the client's answer: a `ProofSealError` is refused
  unfoldable pub validated : Pccb → SealAnswer → Result Pccb
  unfolding first_changed
  validated local (sealed p) = substituted p (first_changed (required_matches k.value_eq local p))
  validated local (seal_error exc) = refused exc
  validated local seal_failed = refused (proof_error "PROOF_SEAL_FAILED")

  unfoldable pub resolve : ActionIntent → PolicyDecision → Pccb → E → Result Pccb × E
  unfolding validated
  resolve intent decision local e = elim k.seal [
    | none ↦ (ok local, e)
    | some client ↦
        let (reply, e') = client intent decision context local e in (validated local reply, e')
  ]

  -- what follows the seal: the escrow, the receipt and the stores
  unfoldable pub complete : ActionIntent → PolicyDecision → String → Pccb → Exec E AdmissionResult
  complete intent decision escrow_id pccb = do
    k.issue_escrow (issue_for intent escrow_id pccb)
    receipt ← decision_receipt intent decision (some pccb) (some escrow_id)
    store_in k.put_pccb pccb
    k.outcomes.write_receipt receipt
    pure (record (result_of intent decision) {
      receipt = some receipt;
      pccb = some pccb;
      escrow_id = some escrow_id;
    })

  unfoldable pub settle_seal :
      ActionIntent → PolicyDecision → String → Pccb → Result Pccb → Exec E AdmissionResult
  unfolding complete
  settle_seal intent decision escrow_id local (ok pccb) = complete intent decision escrow_id pccb
  settle_seal intent decision escrow_id local raised = λ e. (raised, e)
  settle_seal intent decision escrow_id local (refused exc) =
      if not k.require_proof_seal then complete intent decision escrow_id local else (do
        refusal ← write_refusal_of exc (some intent) (some local) (some escrow_id)
        pure (record (result_of intent decision) { refusal = some refusal }))

  abbrev pub minting_of : ActionIntent → String → Minting
  minting_of intent escrow_id = record {
    intent = intent;
    context = context;
    escrow_id = some escrow_id;
    extensions = end;
  }

  -- what follows a decision that neither denies nor holds
  unfoldable pub mint_and_escrow : ActionIntent → PolicyDecision → Exec E AdmissionResult
  unfolding resolve settle_seal mint answer
  mint_and_escrow intent decision = do
    escrow_id ← k.escrow_id_factory
    local ← answer (
        mint k.libraries k.pccb_minter decision (record {
          intent = intent;
          context = context;
          escrow_id = some escrow_id;
          extensions = end;
        }))
    λ e.
        let (reply, e') = resolve intent decision local e in
        settle_seal intent decision escrow_id local reply e'

  unfoldable pub deny : ActionIntent → PolicyDecision → Exec E AdmissionResult
  deny intent decision = do
    receipt ← decision_receipt intent decision none none
    k.outcomes.write_receipt receipt
    refusal ← write_refusal_of (denial decision) (some intent) none none
    pure (record (result_of intent decision) { receipt = some receipt; refusal = some refusal })

  unfoldable pub hold : ActionIntent → PolicyDecision → Exec E AdmissionResult
  hold intent decision = do
    receipt ← decision_receipt intent decision none none
    k.outcomes.write_receipt receipt
    pure (record (result_of intent decision) { receipt = some receipt })

  unfoldable pub decide : ActionIntent → PolicyDecision → Exec E AdmissionResult
  unfolding deny hold mint_and_escrow
  decide intent decision =
      if decision.outcome == "deny"
      then deny intent decision
      else if decision.outcome == "approval-required" || decision.outcome == "needs-evidence"
      then hold intent decision
      else mint_and_escrow intent decision

  unfoldable pub on_intake : Result ActionIntent → Exec E AdmissionResult
  unfolding decide evaluate
  on_intake raised e = (raised, e)
  on_intake (refused exc) e =
      (do
        refusal ← write_refusal_of exc none none none
        pure (record {
          intent = none;
          decision = none;
          receipt = none;
          refusal = some refusal;
          pccb = none;
          escrow_id = none;
        }))
        e
  on_intake (ok intent) e =
      (store_in k.put_intent intent >> decide intent (evaluate k.policy_engine intent context)) e

  -- `submit_intent`
  unfoldable pub submit_intent : Json → Exec E AdmissionResult
  unfolding on_intake
  submit_intent payload e = let (parsed, e') = k.intake payload e in on_intake parsed e'
