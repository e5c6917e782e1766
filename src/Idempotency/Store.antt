-- ===== src/Idempotency/Store.antt =====
-- `OutcomeState` and `IdempotencyStore`. The lock of the store makes each method one step.
use actenon_kernel.Prelude.{
  Bool, Option, String, [], false, if◌then◌else◌, nat_eq, none, some, string_eq, true, ◌==◌,
}
use actenon_kernel.Json.{Fields, end, field, str}
use actenon_kernel.Core.Refusal.{Exec, Refusal, ok, refused}
use actenon_kernel.Dict.{Dict, insert, lookup}

pub data OutcomeState : Type 0 where
  refused_before_execution verified_not_executed execution_attempted : OutcomeState
  provider_confirmed_success provider_confirmed_failure outcome_unknown : OutcomeState
  reconciled_success reconciled_failure : OutcomeState

-- `is_terminal`
abbrev pub is_terminal : OutcomeState → Bool
is_terminal refused_before_execution = true
is_terminal provider_confirmed_success = true
is_terminal provider_confirmed_failure = true
is_terminal reconciled_success = true
is_terminal reconciled_failure = true
is_terminal _ = false

-- `is_reconcilable`
abbrev pub is_reconcilable : OutcomeState → Bool
is_reconcilable outcome_unknown = true
is_reconcilable execution_attempted = true
is_reconcilable _ = false

-- a value of `_records`
pub record RecordedResult : Type 0 where
  pub action_hash : String
  pub result : Fields

abbrev pub Records : Type 0
Records = Dict RecordedResult

-- `IdempotencyConflict`
abbrev pub idempotency_conflict : String → String → String → Refusal
idempotency_conflict operation_id expected_hash actual_hash = record {
  category = "idempotency";
  refusal_code = "IDEMPOTENCY_CONFLICT";
  retryable = false;
  rule_refs = [];
  details = field "operation_id" (str operation_id) (
      field "expected_action_hash" (str expected_hash)
        (field "actual_action_hash" (str actual_hash) end));
}

-- The arguments of `record`.
pub record Recording : Type 0 where
  pub operation_id : String
  pub action_hash : String
  pub result : Fields

abbrev pub entry_of_call : Recording → RecordedResult
entry_of_call c = record { action_hash = c.action_hash; result = c.result }

-- `record` with what it has found under the operation's id
unfoldable pub record_found : Recording → Option RecordedResult → Exec Records (Unit {0})
record_found c none records = (ok tt, insert c.operation_id (entry_of_call c) records)
record_found c (some existing) records =
    if existing.action_hash == c.action_hash
    then (ok tt, records)
    else (refused (idempotency_conflict c.operation_id existing.action_hash c.action_hash), records)

-- `IdempotencyStore.record`
unfoldable pub record_result : Recording → Exec Records (Unit {0})
unfolding record_found
record_result c records = record_found c (lookup c.operation_id records) records
