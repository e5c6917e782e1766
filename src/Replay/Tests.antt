-- ===== src/Replay/Tests.antt =====
-- A payment that is claimed, spent and claimed again, and each theorem at it.
use actenon_kernel.Prelude.{
  List, Option, String, [], arith, count, if◌then◌else◌, inr, none, refl, some, true, ℕ, ◌∷◌, ◌≡◌,
  ◌≤◌,
}
use actenon_kernel.Contracts.{
  ActionIntent, ActionSpec, PartyRef, Pccb, ProtectedExecutionRequest, TargetRef,
}
use actenon_kernel.Replay.Service.{build_replay_key, claim_of, claim_request}
use actenon_kernel.Replay.Late.{late_request_unspendable}
use actenon_kernel.Core.Refusal.{ok, refused, replay_error}
use actenon_kernel.Core.Time.{Time}
use actenon_kernel.Json.{Json, end, field, int, pos}
use actenon_kernel.Sql.{IsKeyed}
use actenon_kernel.Replay.Model.{ActionConsumptionClaim, ActionConsumptionState, row_key}
use actenon_kernel.Replay.Store.{
  claim_once, claimed_row, duplicate_details, inspect_fuel, invalid_details, mark_consumed,
  release_claim, set_expired,
}
use actenon_kernel.Replay.World.{
  Call, World, as_state, claim_once_call, mark_consumed_call, perform, run, spends,
}
use actenon_kernel.Replay.SingleUse.{spent_at_most_once}
use actenon_kernel.Replay.Inspect.{current, inspect_fuel_lem, inspected, seen}
use actenon_kernel.Replay.Results.{claim_once_result, is_free}
use actenon_kernel.Replay.Spending.{
  consumption, mark_consumed_result, release, release_claim_result,
}
use actenon_kernel.Replay.Lease.{early_reclaim, live_claim_exclusive}
use actenon_kernel.Replay.Rollback.{
  IsRolledBack, opened, opened_never-IsRolledBack, rolled_back_refused,
}

abbrev payment : ActionConsumptionClaim
payment = record {
  replay_key = "key-1";
  intent_id = some "intent-1";
  pccb_id = "pccb-1";
  nonce = "n-1";
  action_hash = "h-1";
  audience = "edge";
  capability = "payment.release";
  tenant_id = none;
  subject_id = none;
  expires_at = 90500000;
  metadata = end;
}

abbrev held : ActionConsumptionState
held = claimed_row payment 80000000

abbrev rows : List ActionConsumptionState
rows = held ∷ []

rows-IsKeyed : IsKeyed row_key rows
rows-IsKeyed = (refl, tt)

abbrev world : List ActionConsumptionState → World
world held_rows = record {
  tables = record { action_consumption = held_rows; mutation_counter = some 3 };
  observed = λ _. 0;
}

-- Two workers spend the same claim, and a third claims it again.
abbrev calls : List (ℕ × Call)
calls =
    (0, mark_consumed_call "key-1" 81000000)
    ∷ (1, mark_consumed_call "key-1" 81000000)
    ∷ (2, claim_once_call payment 82000000)
    ∷ (2, mark_consumed_call "key-1" 82000000)
    ∷ []

spent_at_most_once_example : count (spends "key-1") (run calls (world rows)).0 ≤ 1
spent_at_most_once_example = spent_at_most_once "key-1" calls (world rows) rows-IsKeyed

claim_once_result_example : (claim_once payment 81000000 (current rows 3 0)).0 ≡ (
    if is_free 81000000 (some held)
    then ok (seen 81000000 (some (claimed_row payment 81000000)))
    else refused
        (replay_error "DUPLICATE_REPLAY" (duplicate_details payment (seen 81000000 (some held)))))
claim_once_result_example = claim_once_result payment 81000000 rows 3 0 rows-IsKeyed (omega arith)

mark_consumed_result_example :
    (mark_consumed "key-1" 81000000 (current rows 3 0)).0 ≡ consumption "key-1" 81000000 (some held)
mark_consumed_result_example =
    mark_consumed_result "key-1" 81000000 rows 3 0 rows-IsKeyed (omega arith)

release_claim_result_example :
    (release_claim "key-1" 81000000 "failed" (current rows 3 0)).0
    ≡ release "key-1" 81000000 "failed" (some held)
release_claim_result_example =
    release_claim_result "key-1" 81000000 rows 3 0 rows-IsKeyed (omega arith) "failed"

inspect_fuel_lem_example :
    inspect_fuel 2 "key-1" 99000000 (current rows 3 0)
    ≡ (ok (seen 99000000 (some held)), inspected "key-1" 99000000 rows 3 (some held))
inspect_fuel_lem_example = inspect_fuel_lem 0 "key-1" 99000000 rows 3 0 (omega arith)

live_claim_exclusive_example :
    (claim_once payment 81500000 (current rows 3 0)).0
    ≡ refused (replay_error "DUPLICATE_REPLAY" (duplicate_details payment (some held)))
live_claim_exclusive_example =
    live_claim_exclusive payment 81500000 rows 3 0 held rows-IsKeyed (omega arith) refl refl refl
      (omega arith)

-- The claim of 90.5 seconds is given away at 90 seconds.
early_reclaim_example :
    (claim_once payment 90000000 (current rows 3 0)).0
    ≡ ok (seen 90000000 (some (claimed_row payment 90000000)))
early_reclaim_example =
    early_reclaim payment 90000000 rows 3 0 held rows-IsKeyed (omega arith) refl refl refl refl
      (omega arith)

rolled_back_refused_example :
    perform
      (mark_consumed_call "key-1" 81000000)
      (record (current rows 3 0) { last_observed_counter = 4 })
    ≡ (
      refused (
          replay_error "REPLAY_STORE_ROLLBACK_DETECTED" (
            field "observed_counter"
              (int (pos 3))
              (field "last_observed_counter" (int (pos 4)) end))),
      record (current rows 3 0) { last_observed_counter = 4 },
    )
rolled_back_refused_example =
    rolled_back_refused (mark_consumed_call "key-1" 81000000)
      (record (current rows 3 0) { last_observed_counter = 4 }) (inr (3, refl, omega arith))

-- a database whose metadata row is missing
opened_never-IsRolledBack_example : ¬ IsRolledBack (
    as_state
      (run calls (opened (record { action_consumption = rows; mutation_counter = none }))).1
      1)
opened_never-IsRolledBack_example =
    opened_never-IsRolledBack (record { action_consumption = rows; mutation_counter = none }) calls
      1

abbrev party : PartyRef
party = record { type = "agent"; id = "a-1"; display_name = none; attributes = end }

abbrev pay : ActionSpec
pay = record {
  name = "release";
  capability = "payment.release";
  parameters = end;
  constraints = end;
  scope = end;
}

abbrev account : TargetRef
account = record { resource_type = "account"; resource_id = "acc-1"; uri = none; selectors = end }

abbrev intent : ActionIntent
intent = record {
  intent_id = "intent-1";
  issued_at = 1000000;
  expires_at = 90000000;
  tenant = record { tenant_id = "t-1"; attributes = end };
  requester = party;
  action = pay;
  target = account;
  idempotency_key = none;
  justification = none;
  context = end;
  evidence_refs = [];
  metadata = end;
  extensions = end;
}

abbrev proof : Pccb
proof = record {
  pccb_id = "pccb-1";
  issued_at = 1000000;
  not_before = 1000000;
  expires_at = 90000000;
  issuer = party;
  subject = party;
  tenant = record { tenant_id = "t-1"; attributes = end };
  audience = record { type = "service"; id = "edge"; uri = none };
  action = pay;
  target = account;
  scope = record {
    mode = "exact";
    capabilities = "payment.release" ∷ [];
    single_use = true;
    resource_selectors = [];
    parameter_constraints = end;
  };
  nonce = "n-1";
  action_hash = record { algorithm = "sha-256"; canonicalization = "strict"; value = "h-1" };
  signature = record { algorithm = "ed25519"; key_id = "k-1"; encoding = "base64url"; value = "s" };
  intent_id = none;
  escrow_id = none;
  extensions = end;
}

-- Two seconds after the expiry of the proof.
abbrev late_request : ProtectedExecutionRequest
late_request = record {
  intent = intent;
  pccb = proof;
  context = record {
    request_id = "r-1";
    audience = record { type = "service"; id = "edge"; uri = none };
    scope_capabilities = "payment.release" ∷ [];
    now = 92000000;
    facts = end;
    parameter_constraints = end;
    resource_selectors = [];
    required_evidence_types = [];
    approver_types = [];
    max_ttl_seconds = none;
  };
}

-- one hash for every input
abbrev constant_hash : Json → Option String
constant_hash _ = some "1"

late_key : build_replay_key constant_hash intent proof ≡ some "rpk_1"
unfolding build_replay_key
late_key = refl

late_request_unspendable_example :
    let shown = set_expired 92000000 (claimed_row (claim_of late_request "rpk_1") 92000000) in
    let (answer, after) = claim_request constant_hash late_request (current rows 3 0) in
    (answer ≡ ok (some shown))
    × ((later : Time)
        → (mark_consumed "rpk_1" later after).0
          ≡ refused (replay_error "REPLAY_STATE_INVALID" (invalid_details "rpk_1" (some shown))))
late_request_unspendable_example =
    late_request_unspendable constant_hash late_request "rpk_1" rows 3 0 late_key rows-IsKeyed
      (omega arith) refl (omega arith)
