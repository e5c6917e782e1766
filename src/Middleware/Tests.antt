-- ===== src/Middleware/Tests.antt =====
-- A refund whose authority is in escrow, at an endpoint.
use actenon_kernel.Prelude.{arith, some, suc, zero, ℕ, ◌+◌, ◌≡◌, ◌≤◌}
use actenon_kernel.Json.{end}
use actenon_kernel.Core.Refusal.{Exec, escrow_error, ok, refused}
use actenon_kernel.Escrow.{EscrowRecord}
use actenon_kernel.Verifier.{trusted_detailed}
use actenon_kernel.Verifier.Tests.{edge}
use actenon_kernel.Executor.Tests.{calm, claim, once}
use actenon_kernel.Executor.RetryTests.{escrowed, held}
use actenon_kernel.Middleware.Endpoint.{Handler, ProtectedEndpointMiddleware, endpoint_execute}
use actenon_kernel.Middleware.Guarded.{EndpointLaws, handler_only_after_escrow}

-- an escrow with one record
abbrev take : Exec ℕ EscrowRecord
take zero = (ok held, 1)
take (suc n) = (refused (escrow_error "ESCROW_ALREADY_CONSUMED"), suc n)

abbrev endpoint : ProtectedEndpointMiddleware ℕ
endpoint = record {
  proof_verifier = edge trusted_detailed;
  consume = λ _. take;
  outcomes = calm.outcomes;
  replay_protector = record once { mark_consumed = λ _ _ n. (ok (some claim), n) };
  message = λ _. "refused";
  exception_type = "ValueError";
}

abbrev serve : Handler ℕ
serve request n = (ok end, n + 1)

abbrev AtMostTwo : ℕ → Type 0
AtMostTwo n = n ≤ 2

take_bound : (n : ℕ) → n ≤ 2 → (take n).1 ≤ 2
take_bound zero h = omega arith
take_bound (suc n) h = h

served_bound : (n : ℕ) (c : EscrowRecord) → (take n).0 ≡ ok c → (take n).1 + 1 ≤ 2
served_bound zero c h = omega arith
served_bound (suc n) c h = absurd (cc h)

endpoint_laws : EndpointLaws AtMostTwo endpoint escrowed
endpoint_laws = record {
  claim = record { kept = λ n h. h };
  mark = λ key now. record { kept = λ n h. h };
  release = λ key now reason. record { kept = λ n h. h };
  consume = λ a. record { kept = take_bound };
  receipt_id = record { kept = λ n h. h };
  refusal_id = record { kept = λ n h. h };
  write_receipt = λ r. record { kept = λ n h. h };
  write_refusal = λ r. record { kept = λ n h. h };
}

handler_only_after_escrow_example : (endpoint_execute endpoint escrowed serve 0).1 ≤ 2
handler_only_after_escrow_example =
    handler_only_after_escrow AtMostTwo endpoint escrowed serve endpoint_laws
      (λ id c before accepted same h done. served_bound before c done) 0 (omega arith)
