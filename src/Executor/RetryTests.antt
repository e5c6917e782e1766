-- ===== src/Executor/RetryTests.antt =====
-- An operation that is retried under a new proof, and a refund whose authority is in escrow.
use actenon_kernel.Prelude.{String, false, nat_eq, none, refl, some, string_eq, true, ℕ, ◌==◌, ◌≡◌}
use actenon_kernel.Json.{end, field, str}
use actenon_kernel.Core.Refusal.{Exec, answer, ok, pure, ◌>>=◌}
use actenon_kernel.Core.Format.{format_timestamp}
use actenon_kernel.Contracts.{ProtectedExecutionRequest, Receipt, unsigned_payload}
use actenon_kernel.Receipts.{create_execution_receipt, execution_receipt_of}
use actenon_kernel.Escrow.{EscrowRecord, Presentation, consumed_record, issued}
use actenon_kernel.Verifier.{
  authenticate, build_action_hash_input, check_action, check_edge, check_hash, check_place,
  check_revocation, check_scope, check_time, require, verify, ◌⨾◌,
}
use actenon_kernel.Verifier.Tests.{here, refund_of, render, signed_by}
use actenon_kernel.Executor.Model.{IdempotencyStore, PriorResult}
use actenon_kernel.Executor.Body.{operation_conflict}
use actenon_kernel.Executor.Attempt.{executed, with_broker, write_execution}
use actenon_kernel.Executor.Run.{execute, write_refused}
use actenon_kernel.Executor.Guarded.{fail_closed}
use actenon_kernel.Executor.Retried.{
  authorised_executes, claimed_locals, conflict_refused, remembering, retry_returns_prior,
  with_escrow,
}
use actenon_kernel.Executor.Tests.{calm, claim, once, paid, pays, token}

-- the same operation, by its id
abbrev retried : ProtectedExecutionRequest
retried = record paid {
  intent = record (refund_of "5") { metadata = field "operation_id" (str "op-1") end };
}

verified_retry : verify calm.proof_verifier retried.intent retried.pccb retried.context ≡ ok tt
unfolding verify check_hash check_revocation check_time check_place check_scope check_action
    check_edge authenticate unsigned_payload build_action_hash_input render require ◌⨾◌
verified_retry = refl

abbrev prior_of : String → PriorResult
prior_of hash = record { action_hash = hash; result = some end }

abbrev remembers : String → IdempotencyStore ℕ
remembers hash = record {
  lookup = λ _ n. (ok (some (prior_of hash)), n);
  record_result = λ _ _ _ n. (ok tt, n);
}

abbrev hash_of_paid : String
hash_of_paid = retried.pccb.action_hash.value

abbrev retry_receipt : Receipt
retry_receipt =
    execution_receipt_of ("The protected action executed successfully.", end) "r-1" retried.intent
      here "p-1" none (some end) (some retried.pccb.action_hash)

written_retry :
    write_execution
      (remembering (remembers hash_of_paid) (fail_closed once calm))
      retried
      (some end)
      none
      1
    ≡ (ok retry_receipt, 1)
unfolding write_execution create_execution_receipt ◌>>=◌ pure answer
written_retry = refl

hash_same : (hash_of_paid == hash_of_paid) ≡ true
unfolding render build_action_hash_input format_timestamp
hash_same = refl

retry_returns_prior_example :
    execute (remembering (remembers hash_of_paid) (fail_closed once calm)) retried pays none 0
    ≡ (ok (executed retry_receipt (some end)), 1)
retry_returns_prior_example =
    retry_returns_prior once calm retried pays none 0 verified_retry refl refl claim 0 refl
      (remembers hash_of_paid) (str "op-1") refl (prior_of hash_of_paid) 0 refl (some claim) 1 1
      retry_receipt hash_same refl written_retry

hash_other : ("another" == hash_of_paid) ≡ false
unfolding render build_action_hash_input format_timestamp
hash_other = refl

conflict_refused_example :
    execute (remembering (remembers "another") (fail_closed once calm)) retried pays none 0
    ≡ write_refused
        (remembering (remembers "another") (fail_closed once calm))
        retried
        (operation_conflict (str "op-1") "another" hash_of_paid)
        (claimed_locals claim)
        0
conflict_refused_example =
    conflict_refused once calm retried pays none 0 verified_retry refl refl claim 0 refl
      (remembers "another") (str "op-1") refl (prior_of "another") 0 refl hash_other

abbrev pub escrowed : ProtectedExecutionRequest
escrowed = record paid { pccb = record (signed_by "key-1") { escrow_id = some "e-1" } }

verified_escrowed :
    verify calm.proof_verifier escrowed.intent escrowed.pccb escrowed.context ≡ ok tt
unfolding verify check_hash check_revocation check_time check_place check_scope check_action
    check_edge authenticate unsigned_payload build_action_hash_input render require ◌⨾◌
verified_escrowed = refl

abbrev unused : EscrowRecord
unused = record {
  escrow_id = "e-1";
  pccb_id = "p-1";
  capability = "payment.refund";
  expires_at = 62000000;
  state = issued;
  consumed_at = none;
  metadata = end;
}

abbrev pub held : EscrowRecord
held = consumed_record 10000000 unused

abbrev consume_one : Presentation → Exec ℕ EscrowRecord
consume_one a n = (ok held, n)

abbrev paid_receipt : Receipt
paid_receipt =
    execution_receipt_of ("The protected action executed successfully.", with_broker token none)
      "r-1" escrowed.intent here "p-1" (some "e-1") (some (with_broker token none))
      (some escrowed.pccb.action_hash)

written_escrowed :
    write_execution
      (with_escrow consume_one (fail_closed once calm))
      escrowed
      (some (with_broker token none))
      none
      2
    ≡ (ok paid_receipt, 2)
unfolding write_execution create_execution_receipt ◌>>=◌ pure answer
written_escrowed = refl

authorised_executes_example :
    execute (with_escrow consume_one (fail_closed once calm)) escrowed pays none 0
    ≡ (ok (executed paid_receipt none), 2)
authorised_executes_example =
    authorised_executes once calm escrowed pays none 0 verified_escrowed refl refl claim 0 refl
      consume_one "e-1" held token (some claim) none paid_receipt 0 0 1 2 2 2 refl refl refl refl
      refl refl written_escrowed
