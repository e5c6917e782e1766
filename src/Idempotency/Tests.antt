-- ===== src/Idempotency/Tests.antt =====
-- Two results for one operation, and each theorem at them.
use actenon_kernel.Prelude.{List, String, [], none, refl, ◌∷◌, ◌≡◌}
use actenon_kernel.Json.{end}
use actenon_kernel.Core.Refusal.{is_ok, ok, refused}
use actenon_kernel.Dict.{lookup}
use actenon_kernel.Idempotency.Store.{Recording, idempotency_conflict, record_result}
use actenon_kernel.Idempotency.First.{
  first_result, first_result_wins, has_hash, record_accepts_same, run,
}

abbrev recording : String → String → Recording
recording operation_id action_hash = record {
  operation_id = operation_id;
  action_hash = action_hash;
  result = end;
}

-- The second result of `op-1` has another hash.
abbrev calls : List Recording
calls = recording "op-1" "h-1" ∷ recording "op-2" "h-2" ∷ recording "op-1" "h-3" ∷ []

run-calls :
    (run calls []).0
    ≡ (recording "op-1" "h-1", ok tt)
      ∷ (recording "op-2" "h-2", ok tt)
      ∷ (recording "op-1" "h-3", refused (idempotency_conflict "op-1" "h-1" "h-3"))
      ∷ []
unfolding run record_result
run-calls = refl

first_result_wins_example : lookup "op-1" (run calls []).1 ≡ first_result "op-1" none calls
first_result_wins_example = first_result_wins "op-1" calls []

record_accepts_same_example :
    is_ok (record_result (recording "op-1" "h-3") (run calls []).1).0
    ≡ has_hash
        (first_result "op-1" (lookup "op-1" (run calls []).1) (recording "op-1" "h-3" ∷ []))
        "h-3"
record_accepts_same_example = record_accepts_same (recording "op-1" "h-3") (run calls []).1
