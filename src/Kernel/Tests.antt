-- ===== src/Kernel/Tests.antt =====
-- A refund that is admitted, and each theorem at it.
use actenon_kernel.Prelude.{String, [], ap, arith, none, refl, some, true, ℕ, ◌+◌, ◌∷◌, ◌≡◌, ◌≤◌}
use actenon_kernel.Json.{end, null, obj}
use actenon_kernel.Contracts.{ActionIntent, Pccb, PolicyDecision, unsigned_payload}
use actenon_kernel.Core.Refusal.{Result, answer, ok, pure, ◌>>=◌}
use actenon_kernel.Policy.{PolicyRule, evaluate, evaluate_workflow}
use actenon_kernel.Minter.{mint, signed_proof, unsigned_proof}
use actenon_kernel.Minter.Accepted.{Trusts}
use actenon_kernel.Minter.Tests.{edge-Trusts, issuer_key, minting}
use actenon_kernel.Verifier.{build_action_hash_input, trusted_detailed}
use actenon_kernel.Verifier.Tests.{edge, here, refund_of, render}
use actenon_kernel.Receipts.{create_decision_receipt, decision_receipt_of, rules_of}
use actenon_kernel.Escrow.{issued_record}
use actenon_kernel.Executor.Tests.{calm}
use actenon_kernel.Kernel.Submit.{
  AdmissionResult, ProtectedExecutionKernel, complete, decide, mint_and_escrow, minting_of,
  on_intake, resolve, result_of, settle_seal, submit_intent,
}
use actenon_kernel.Kernel.Admitted.{IsAdmitted, submit_intent-IsAdmitted}
use actenon_kernel.Kernel.Verifies.{IsVerified, admitted_verifies}

abbrev allows : PolicyRule
allows intent context = some (record {
  rule_id = "all";
  outcome = "allow";
  reason_code = "OK";
  summary = "Refunds";
  details = end;
  required_evidence = [];
  approver_types = [];
})

-- it counts the records that the escrow issues
abbrev kernel : ProtectedExecutionKernel ℕ
kernel = record {
  intake = λ _ n. (ok (refund_of "5"), n);
  policy_engine = record {
    hard_rules = [];
    tenant_workflow_rules = record { tenant_rules = []; default_rules = allows ∷ [] };
  };
  libraries = (edge trusted_detailed).libraries;
  pccb_minter = issuer_key;
  issue_escrow = λ i n. (ok (issued_record i), n + 1);
  outcomes = calm.outcomes;
  put_intent = none;
  put_pccb = none;
  escrow_id_factory = λ n. (ok "e-1", n);
  seal = none;
  require_proof_seal = true;
  value_eq = λ a b. true;
}

abbrev decision : PolicyDecision
decision = evaluate kernel.policy_engine (refund_of "5") here

abbrev unsigned : Pccb
unsigned =
    unsigned_proof issuer_key (record minting { escrow_id = some "e-1" }) ("payment.refund" ∷ [])
      (render (obj (build_action_hash_input (refund_of "5"))))

abbrev proof : Pccb
proof = signed_proof issuer_key unsigned (render (obj (unsigned_payload unsigned)))

abbrev admission : AdmissionResult
admission = record (result_of (refund_of "5") decision) {
  receipt = some (
      decision_receipt_of (decision.summary, rules_of decision) "r-1" (refund_of "5") decision here
        (some "p-2") (some "e-1") (some proof.action_hash));
  pccb = some proof;
  escrow_id = some "e-1";
}

admitted : submit_intent kernel here null 0 ≡ (ok admission, 1)
unfolding submit_intent on_intake decide mint_and_escrow resolve settle_seal complete mint evaluate
    evaluate_workflow ◌>>=◌ pure answer create_decision_receipt
admitted = refl

submit_intent-IsAdmitted_example : IsAdmitted kernel here null 0 proof
submit_intent-IsAdmitted_example =
    submit_intent-IsAdmitted kernel here null 0 admission proof
      (ap (λ (q : Result AdmissionResult × ℕ). q.0) admitted) refl

trusted_there :
    (intent : ActionIntent) (escrow_id : String)
    → (kernel.intake null 0).0 ≡ ok intent
    → Trusts (edge trusted_detailed) issuer_key (minting_of kernel here intent escrow_id) 12000000
      × (12000000 ≤ intent.expires_at + 5000000)
trusted_there intent escrow_id h =
    let same : refund_of "5" ≡ intent = cc h in
    rw (← same) (edge-Trusts (some escrow_id), omega arith)

admitted_verifies_example : IsVerified (edge trusted_detailed) kernel here 12000000 null 0 proof
admitted_verifies_example =
    admitted_verifies (edge trusted_detailed) kernel here 12000000 null 0 admission proof
      (ap (λ (q : Result AdmissionResult × ℕ). q.0) admitted) refl trusted_there (omega arith)
      (omega arith) (omega arith)
