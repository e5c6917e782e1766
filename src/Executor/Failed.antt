-- ===== src/Executor/Failed.antt =====
-- A failure after the claim is marked (actenon/execution/protected_executor.py), as of the handler
-- or of the receipt of what it did.
use actenon_kernel.Prelude.{Bool, Option, String, [], none, refl, some, true, ◌∙◌, ◌∷◌, ◌≡◌}
use actenon_kernel.Json.{Fields, bool, end, field, str}
use actenon_kernel.Core.Refusal.{Exec, Refusal, answer, ok, pure, raised, ◌>>=◌}
use actenon_kernel.Contracts.{
  ExecutionResult, PolicyDecision, ProtectedExecutionRequest, Receipt, RefusalRecord,
}
use actenon_kernel.Credentials.{BrokeredCredential}
use actenon_kernel.Receipts.{
  create_from_exception, create_refused_receipt, refused_receipt_of, texts_or,
}
use actenon_kernel.Executor.Model.{
  BrokeredHandler, Locals, ProtectedExecutor, no_locals, quietly, refusal_of,
}
use actenon_kernel.Executor.Attempt.{attempt}
use actenon_kernel.Executor.Evidence.{effect_refusal_receipt}
use actenon_kernel.Executor.Run.{
  after_exception, consume_quietly, execute, failed_outcome, failure, redacted_details,
  release_credential, settle, write_refused,
}

-- the outcome of which the broker is told
abbrev pub failed_release : String → String → Fields
failed_release exception_type request_id = field "outcome" (str "failed") (
    field "safe_error_code" (str "EXECUTION_FAILED") (
      field "exception_type" (str exception_type) (
        field "phase" (str "execution") (
          field "sensitive_details_redacted" (bool true)
            (field "request_id" (str request_id) end)))))

module _ {E : Type 0} (x : ProtectedExecutor E) (request : ProtectedExecutionRequest) where
  abbrev execution_failed : Refusal
  execution_failed = record (refusal_of "execution" "EXECUTION_FAILED") {
    details = redacted_details x.exception_type request.context.request_id;
  }

  abbrev failed_record : String → RefusalRecord
  failed_record id =
      create_from_exception id execution_failed request.context.now (some request.intent)
        request.context (some request.pccb.pccb_id) request.pccb.escrow_id
        (some request.pccb.action_hash)

  abbrev failed_texts : Option (String × Fields) → String × Fields
  failed_texts none = (x.message execution_failed, end)
  failed_texts (some texts) = texts

  failed_texts-ok :
      (o : Option (String × Fields))
      → texts_or (x.message execution_failed, end) (ok o) ≡ ok (failed_texts o)
  failed_texts-ok none = refl
  failed_texts-ok (some texts) = refl

  module _ (l : Locals) (consumed : l.replay_consumed ≡ true)
      (no_effect : l.effect_reference ≡ none) (texts : Option (String × Fields))
      (worded : x.outcomes.domain.for_refusal request.intent "EXECUTION_FAILED" ≡ ok texts)
      (refusals : (f : RefusalRecord) (e : E) → (x.outcomes.write_refusal f e).0 ≡ ok tt)
      (receipts : (r : Receipt)
        → r.outcome ≡ "refused"
        → (e : E) → (x.outcomes.write_receipt r e).0 ≡ ok tt) where
    failure_written :
        (refusal_id receipt_id : String) (e1 e2 e3 : E)
        → x.outcomes.refusal_id_factory e1 ≡ (ok refusal_id, e2)
        → x.outcomes.receipt_id_factory e2 ≡ (ok receipt_id, e3)
        → let f = failed_record refusal_id in
          let r =
            refused_receipt_of (failed_texts texts) receipt_id request.intent request.context f in
          write_refused x request execution_failed l e1 ≡ (
            ok (record { receipt = some r; refusal = some f; payload = none }),
            (x.outcomes.write_receipt r (x.outcomes.write_refusal f e3).1).1,
          )
    unfolding write_refused create_from_exception create_refused_receipt effect_refusal_receipt
        ◌>>=◌ pure answer
    failure_written refusal_id receipt_id e1 e2 e3 named numbered =
        let f = failed_record refusal_id in
        let r =
          refused_receipt_of (failed_texts texts) receipt_id request.intent request.context f in
        rw named (
          rw worded (
            rw (failed_texts-ok texts) (
              rw numbered (
                rw no_effect (
                  rw (refusals f e3)
                    (rw (receipts r refl (x.outcomes.write_refusal f e3).1) refl))))))

    failure_told :
        failed_outcome x request l ≡ failed_release x.exception_type request.context.request_id
    failure_told = rw no_effect refl

    failure_named : failure x request l ≡ execution_failed
    failure_named = rw no_effect refl

    -- `except Exception`, with what it tells the broker and what it reports
    abbrev ending : Option BrokeredCredential → Fields → Bool → Refusal → Exec E ExecutionResult
    ending c outcome done exc = release_credential x request c outcome >>= λ _.
        consume_quietly x request l.replay_state done >>= λ _. write_refused x request exc l

    failure_ends :
        (c : BrokeredCredential) (s : E)
        → l.brokered_credential ≡ some c
        → after_exception x request l s
          ≡ write_refused x request execution_failed l
              (x.credential_broker.release c
                (failed_release x.exception_type request.context.request_id)
                s).1
    unfolding after_exception ◌>>=◌ quietly pure
    failure_ends c s held = λ i. ending (held i) (failure_told i) (consumed i) (failure_named i) s

    -- If the `try` block of `execute` raises another exception than a refusal after the claim was
    -- marked and a credential was acquired, as when the handler raises or the receipt of what it
    -- did cannot be written, and the request has not claimed an effect, then the credential is
    -- released with the outcome 'failed', and the answer, made from the environment that this
    -- release leaves, is a refusal with the code EXECUTION_FAILED and a receipt whose outcome is
    -- 'refused' and whose side effects are 'none', if the ids and the texts are given and the
    -- writers of refusals and of their receipts return.
    pub late_failure_refused :
        (handler : BrokeredHandler E) (decision : Option PolicyDecision) (e s e2 e3 : E)
        (c : BrokeredCredential) (refusal_id receipt_id : String)
        → attempt x request handler decision (record { env = e; locals = no_locals })
          ≡ (raised, record { env = s; locals = l })
        → l.brokered_credential ≡ some c
        → let e1 =
            (x.credential_broker.release c
              (failed_release x.exception_type request.context.request_id)
              s).1 in
          x.outcomes.refusal_id_factory e1 ≡ (ok refusal_id, e2)
          → x.outcomes.receipt_id_factory e2 ≡ (ok receipt_id, e3)
          → (f : RefusalRecord) × (r : Receipt) × (last : E) × (execute x request handler decision e
              ≡ (ok (record { receipt = some r; refusal = some f; payload = none }), last))
            × (f.reason_code ≡ "EXECUTION_FAILED")
            × (f.category ≡ "execution")
            × (r.outcome ≡ "refused")
            × (r.reason_codes ≡ "EXECUTION_FAILED" ∷ [])
            × (r.side_effects ≡ field "state" (str "none") end)
    unfolding execute settle create_from_exception
    late_failure_refused handler decision e s e2 e3 c refusal_id receipt_id fails held named
          numbered =
        let f = failed_record refusal_id in
        let r =
          refused_receipt_of (failed_texts texts) receipt_id request.intent request.context f in
        let e1 =
          (x.credential_broker.release c
            (failed_release x.exception_type request.context.request_id) s).1 in
        (
          f,
          r,
          (x.outcomes.write_receipt r (x.outcomes.write_refusal f e3).1).1,
          rw fails (
              failure_ends c s held
              ∙ failure_written refusal_id receipt_id e1 e2 e3 named numbered),
          refl,
          refl,
          refl,
          refl,
          refl,
        )
