-- ===== src/Executor/FailTests.antt =====
-- A refund whose receipt cannot be written.
use actenon_kernel.Prelude.{
  [], if◌then◌else◌, nat_eq, none, refl, some, string_eq, true, ℕ, ◌==◌, ◌∙◌, ◌∷◌, ◌≡◌,
}
use actenon_kernel.Json.{end, field, str}
use actenon_kernel.Core.Refusal.{answer, ok, pure, raised, ◌>>=◌}
use actenon_kernel.Contracts.{Receipt, RefusalRecord}
use actenon_kernel.Receipts.{create_execution_receipt}
use actenon_kernel.Executor.Model.{Locals, ProtectedExecutor, assign, no_locals, within}
use actenon_kernel.Executor.Evidence.{check_evidence}
use actenon_kernel.Executor.Attempt.{
  attempt, check_operation, proceed, run_handler, settle_success, write_execution,
}
use actenon_kernel.Executor.Run.{execute}
use actenon_kernel.Executor.Guarded.{fail_closed}
use actenon_kernel.Executor.Failed.{late_failure_refused}
use actenon_kernel.Executor.Tests.{calm, claim, once, paid, pays, token, verified_here}
use actenon_kernel.Executor.Body.{
  acquired, claim_replay, claimed_session, consumed_session, mark_replay_consumed,
}
use actenon_kernel.Executor.Refused.{attempt_admitted}

-- receipts of executions cannot be written, those of refusals can
abbrev unwritable : ProtectedExecutor ℕ
unwritable = record calm {
  outcomes = record calm.outcomes {
    write_receipt = λ r n. if r.outcome == "executed" then (raised, n) else (ok tt, n);
  };
}

abbrev failing : ProtectedExecutor ℕ
failing = fail_closed once unwritable

-- the local variables when the handler has returned
abbrev handled : Locals
handled = record no_locals {
  replay_state = some claim;
  replay_consumed = true;
  brokered_credential = some token;
  handler_started = true;
}

-- the handler has run: the state is 2
unwritten :
    attempt failing paid pays none (record { env = 0; locals = no_locals })
    ≡ (raised, record { env = 2; locals = handled })
unfolding attempt claimed_session claim_replay within assign check_operation proceed acquired
    consumed_session mark_replay_consumed run_handler check_evidence settle_success write_execution
    create_execution_receipt ◌>>=◌ pure answer
unwritten = attempt_admitted failing paid pays none 0 verified_here refl refl ∙ refl

late_failure_refused_example :
    (f : RefusalRecord) × (r : Receipt) × (last : ℕ) × (execute failing paid pays none 0
      ≡ (ok (record { receipt = some r; refusal = some f; payload = none }), last))
    × (f.reason_code ≡ "EXECUTION_FAILED")
    × (f.category ≡ "execution")
    × (r.outcome ≡ "refused")
    × (r.reason_codes ≡ "EXECUTION_FAILED" ∷ [])
    × (r.side_effects ≡ field "state" (str "none") end)
late_failure_refused_example =
    late_failure_refused failing paid handled refl refl none refl (λ f e. refl) (λ r h e. rw h refl)
      pays none 0 2 2 2 token "f-1" "r-1" unwritten refl refl refl
