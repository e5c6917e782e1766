-- ===== src/Executor/Tests.antt =====
-- A refund that is executed, replayed and retried, and each theorem at it.
use actenon_kernel.Prelude.{
  Option, String, [], arith, count, false, nat_eq, none, refl, some, string_eq, suc, true, zero, ℕ,
  ◌+◌, ◌==◌, ◌∷◌, ◌≡◌, ◌≤◌,
}
use actenon_kernel.Json.{Json, end}
use actenon_kernel.Core.Refusal.{Exec, is_ok, ok, proof_error, raised, refused, replay_error}
use actenon_kernel.Contracts.{ProtectedExecutionRequest, unsigned_payload}
use actenon_kernel.Receipts.{DomainTexts}
use actenon_kernel.Credentials.{BrokeredCredential}
use actenon_kernel.Replay.{ActionConsumptionState, claimed, open_store}
use actenon_kernel.Replay.Service.{build_replay_key, claim_of}
use actenon_kernel.Verifier.{
  authenticate, build_action_hash_input, check_action, check_edge, check_hash, check_place,
  check_revocation, check_scope, check_time, require, trusted_detailed, verify, ◌⨾◌,
}
use actenon_kernel.Verifier.Tests.{edge, here, refund_of, render, signed_by}
use actenon_kernel.Executor.Model.{BrokeredHandler, ProtectedExecutor, ReplayProtector, no_locals}
use actenon_kernel.Executor.Run.{execute, write_refused}
use actenon_kernel.Executor.Rules.{Preserves}
use actenon_kernel.Executor.Guarded.{fail_closed}
use actenon_kernel.Executor.Safety.{handler_only_when_spent}
use actenon_kernel.Executor.Edge.{Edge, Step, execution, run_steps}
use actenon_kernel.Executor.Once.{handled_at_most_once}
use actenon_kernel.Executor.Refused.{unverified_refused}
use actenon_kernel.Executor.Retried.{replay_refused}

abbrev pub paid : ProtectedExecutionRequest
paid = record { intent = refund_of "5"; pccb = signed_by "key-1"; context = here }

-- a proof that is for another amount
abbrev forged : ProtectedExecutionRequest
forged = record paid { intent = refund_of "6" }

abbrev pub token : BrokeredCredential
token = record {
  credential_id = "c-1";
  issued_at = 10000000;
  expires_at = 20000000;
  scope = "payment.refund" ∷ [];
  metadata = end;
  secret_reference = none;
}

abbrev pub plain_texts : DomainTexts
plain_texts = record {
  for_decision = λ _ _ _ _. ok none;
  for_execution = λ _ _. ok none;
  for_refusal = λ _ _. ok none;
}

-- Collaborators that always answer. The state counts: 0 is fresh, 1 spent, 2 handled.
abbrev pub calm : ProtectedExecutor ℕ
calm = record {
  proof_verifier = edge trusted_detailed;
  credential_broker = record { acquire = λ _ _ _ n. (ok token, n); release = λ _ _ n. (ok tt, n) };
  replay_protector = none;
  escrow = none;
  outcomes = record {
    domain = plain_texts;
    receipt_id_factory = λ n. (ok "r-1", n);
    refusal_id_factory = λ n. (ok "f-1", n);
    write_receipt = λ _ n. (ok tt, n);
    write_refusal = λ _ n. (ok tt, n);
  };
  fail_open = false;
  idempotency_store = none;
  effect_protector = none;
  message = λ _. "refused";
  exception_type = "ValueError";
  sha256_hex = λ x. some (render x);
  valid_outcome = λ _ _ _. true;
}

abbrev pub claim : ActionConsumptionState
claim = record {
  claim = claim_of paid "key-1";
  status = claimed;
  created_at = 10000000;
  updated_at = 10000000;
  consumed_at = none;
}

abbrev pub spend : Exec ℕ (Option ActionConsumptionState)
spend zero = (ok (some claim), 1)
spend (suc n) = (raised, suc n)

-- a store that marks one claim, once
abbrev pub once : ReplayProtector ℕ
once = record {
  claim_request = λ _ n. (ok (some claim), n);
  mark_consumed = λ _ _. spend;
  release_claim = λ _ _ _ n. (ok none, n);
}

abbrev pub pays : BrokeredHandler ℕ
pays request c n = (ok none, n + 1)

abbrev AtMostTwo : ℕ → Type 0
AtMostTwo n = n ≤ 2

spend_bound : (n : ℕ) → n ≤ 2 → (spend n).1 ≤ 2
spend_bound zero h = omega arith
spend_bound (suc n) h = h

handled_bound : (n m : ℕ) → is_ok (spend n).0 ≡ true → m ≡ (spend n).1 → m + 1 ≤ 2
handled_bound zero m fresh after = omega (arith, after)
handled_bound (suc n) m fresh after = absurd (cc fresh)

calm_laws : Preserves AtMostTwo (fail_closed once calm) paid
calm_laws = record {
  claim = record { kept = λ n h. h };
  mark = λ key now. record { kept = spend_bound };
  release_claim = λ key now reason. record { kept = λ n h. h };
  lookup = tt;
  record_result = tt;
  consume = tt;
  claim_effect = tt;
  acquire = record { kept = λ n h. h };
  release = λ c outcome. record { kept = λ n h. h };
  receipt_id = record { kept = λ n h. h };
  refusal_id = record { kept = λ n h. h };
  write_receipt = λ r. record { kept = λ n h. h };
  write_refusal = λ r. record { kept = λ n h. h };
}

handler_only_when_spent_example : (execute (fail_closed once calm) paid pays none 0).1 ≤ 2
handler_only_when_spent_example =
    handler_only_when_spent AtMostTwo once calm paid pays none calm_laws
      (λ n o h. rw (← (let e : some claim ≡ o = cc h in e)) refl)
      (λ c state started n accepted permitted gained spent.
        handled_bound spent.before n spent.marked spent.after)
      0 (omega arith)

-- the edge, over a new store
abbrev opened : Edge ℕ
opened = record {
  store = open_store (record { action_consumption = []; mutation_counter = none });
  handled = [];
  world = 0;
}

abbrev canonical : Json → Option String
canonical x = some (render x)

abbrev pay_once : Step ℕ
pay_once = execution calm paid pays none

abbrev paid_key : String
paid_key = elim (build_replay_key canonical paid.intent paid.pccb) [ none ↦ "" | some key ↦ key ]

handled_at_most_once_example :
    count (λ k. k == paid_key) (run_steps canonical (pay_once ∷ pay_once ∷ []) opened).handled ≤ 1
unfolding open_store
handled_at_most_once_example =
    handled_at_most_once canonical paid_key (pay_once ∷ pay_once ∷ []) opened refl tt refl

not_verified :
    verify calm.proof_verifier forged.intent forged.pccb forged.context
    ≡ refused (proof_error "ACTION_MISMATCH")
unfolding verify check_hash check_revocation check_time check_place check_scope check_action
    check_edge authenticate unsigned_payload build_action_hash_input render require ◌⨾◌
not_verified = refl

pub verified_here : verify calm.proof_verifier paid.intent paid.pccb paid.context ≡ ok tt
unfolding verify check_hash check_revocation check_time check_place check_scope check_action
    check_edge authenticate unsigned_payload build_action_hash_input render require ◌⨾◌
verified_here = refl

unverified_refused_example :
    execute calm forged pays none 0
    ≡ write_refused calm forged (proof_error "ACTION_MISMATCH") no_locals 0
unverified_refused_example =
    unverified_refused calm forged pays none 0 (proof_error "ACTION_MISMATCH") not_verified

-- a store that has seen every claim
abbrev seen : ReplayProtector ℕ
seen = record once { claim_request = λ _ n. (refused (replay_error "DUPLICATE_REPLAY" end), n) }

replay_refused_example :
    execute (fail_closed seen calm) paid pays none 0
    ≡ write_refused (fail_closed seen calm) paid (replay_error "DUPLICATE_REPLAY" end) no_locals 0
replay_refused_example =
    replay_refused seen calm paid pays none 0 verified_here refl
      (replay_error "DUPLICATE_REPLAY" end) 0 refl refl
