-- ===== src/Replay/Store.antt =====
-- The methods of `DbApiReplayStore`. A transaction that raises or rolls back leaves the tables as
-- they were; the process-wide lock and the engine's write lock make each transaction one step.
use actenon_kernel.Prelude.{
  Bool, List, Option, String, false, if◌then◌else◌, is_some, leb, ltb, nat_eq, none, some,
  string_eq, suc, true, zero, ℕ, ◌&&◌, ◌+◌, ◌==◌, ◌||◌,
}
use actenon_kernel.Json.{Fields, end, field, int, pos, put, str}
use actenon_kernel.Core.Refusal.{Exec, ok, pure, raised, refuse, refused, replay_error, ◌>>=◌, ◌>>◌}
use actenon_kernel.Core.Time.{Time, text_leb}
use actenon_kernel.Sql.{delete_where, insert_or_ignore, rowcount, select, update_where}
use actenon_kernel.Replay.Model.{
  ActionConsumptionClaim, ActionConsumptionState, Database, Status, StoreState, claimed, consumed,
  expired, released, row_key, status_beq, status_text,
}

abbrev pub row_status : ActionConsumptionState → Status
row_status r = r.status

-- the `WHERE` clauses
abbrev pub is_claim_of : String → ActionConsumptionState → Bool
is_claim_of key r = row_key r == key && status_beq r.status claimed

abbrev pub is_overdue_claim_of : String → Time → ActionConsumptionState → Bool
is_overdue_claim_of key now r =
    row_key r == key && (status_beq r.status claimed && text_leb r.expires_at now)

abbrev pub is_overdue_claim : Time → ActionConsumptionState → Bool
is_overdue_claim now r = status_beq r.status claimed && text_leb r.expires_at now

abbrev pub is_reclaimable : String → ActionConsumptionState → Bool
is_reclaimable key r =
    row_key r == key && (status_beq r.status released || status_beq r.status expired)

-- the `SET` clauses
abbrev pub set_expired : Time → ActionConsumptionState → ActionConsumptionState
set_expired now r = record r { status = expired; updated_at = now }

abbrev pub set_consumed : Time → ActionConsumptionState → ActionConsumptionState
set_consumed now r = record r { status = consumed; updated_at = now; consumed_at = some now }

abbrev pub set_released : Time → String → ActionConsumptionState → ActionConsumptionState
set_released now reason r = record r {
  claim = record r.claim { metadata = put r.metadata "release_reason" (str reason) };
  status = released;
  updated_at = now;
}

-- `ensure_schema`: the tables that are there stay, and a missing metadata row is made with a counter
-- of 0.
abbrev pub counter_or_zero : Option ℕ → ℕ
counter_or_zero none = 0
counter_or_zero (some counter) = counter

unfoldable pub ensure_schema : Database → Database
ensure_schema d = record d { mutation_counter = some (counter_or_zero d.mutation_counter) }

-- `__init__`: a store object begins with the counter that it finds.
unfoldable pub open_store : Database → StoreState
unfolding ensure_schema
open_store d = record {
  database = ensure_schema d;
  last_observed_counter = counter_or_zero d.mutation_counter;
}

-- `_assert_store_monotonic` with the counter that `_read_mutation_counter` has read
unfoldable pub observe : Option ℕ → Exec StoreState (Unit {0})
observe none s = (refused (replay_error "REPLAY_STORE_ROLLBACK_DETECTED" end), s)
observe (some counter) s =
    if ltb counter s.last_observed_counter
    then (
      refused (
          replay_error "REPLAY_STORE_ROLLBACK_DETECTED" (
            field "observed_counter" (int (pos counter))
              (field "last_observed_counter" (int (pos s.last_observed_counter)) end))),
      s,
    )
    else (ok tt, record s { last_observed_counter = counter })

unfoldable pub assert_store_monotonic : Exec StoreState (Unit {0})
unfolding observe
assert_store_monotonic s = observe s.mutation_counter s

-- `_advance_mutation_counter` and `connection.commit()`, after the statements have made `rows`
unfoldable pub advance : Option ℕ → List ActionConsumptionState → Exec StoreState (Unit {0})
advance none rows s = (refused (replay_error "REPLAY_STORE_ROLLBACK_DETECTED" end), s)
advance (some counter) rows s =
    if leb (counter + 1) s.last_observed_counter
    then (
      refused (
          replay_error "REPLAY_STORE_ROLLBACK_DETECTED" (
            field "observed_counter" (int (pos (counter + 1)))
              (field "last_observed_counter" (int (pos s.last_observed_counter)) end))),
      s,
    )
    else (
      ok tt,
      record {
        database = record { action_consumption = rows; mutation_counter = some (counter + 1) };
        last_observed_counter = counter + 1;
      },
    )

unfoldable pub commit : List ActionConsumptionState → Exec StoreState (Unit {0})
unfolding advance
commit rows s = advance s.mutation_counter rows s

-- `_select_row`
abbrev pub select_row : String → StoreState → Option ActionConsumptionState
select_row key s = select row_key key s.action_consumption

-- `inspect`, which calls itself after it has marked an overdue claim. The fuel is the depth of
-- the calls; two are enough (Inspect).
unfoldable pub inspect_fuel : ℕ → String → Time → Exec StoreState (Option ActionConsumptionState)
inspect_fuel zero key now = λ s. (raised, s)
inspect_fuel (suc fuel) key now = assert_store_monotonic >> λ s. elim (select_row key s) [
  | none ↦ (ok none, s)
  | some state ↦ elim (status_beq state.status claimed && leb state.expires_at now) [
    | true ↦
        (commit (update_where (is_claim_of key) (set_expired now) s.action_consumption)
            >> inspect_fuel fuel key now)
          s
    | false ↦ (ok (some state), s)
  ]
]

unfoldable pub inspect : String → Time → Exec StoreState (Option ActionConsumptionState)
unfolding inspect_fuel
inspect = inspect_fuel 2

-- the row that `claim_once` inserts
abbrev pub claimed_row : ActionConsumptionClaim → Time → ActionConsumptionState
claimed_row claim now = record {
  claim = claim;
  status = claimed;
  created_at = now;
  updated_at = now;
  consumed_at = none;
}

-- the table after the first two statements of `claim_once`
unfoldable pub cleared : String → Time → List ActionConsumptionState → List ActionConsumptionState
cleared key now rows =
    delete_where (is_reclaimable key)
      (update_where (is_overdue_claim_of key now) (set_expired now) rows)

-- the `details` of DUPLICATE_REPLAY
abbrev pub duplicate_details : ActionConsumptionClaim → Option ActionConsumptionState → Fields
duplicate_details claim existing = field "replay_key" (str claim.replay_key) (
    field "existing_status"
      (str (elim existing [ none ↦ "unknown" | some e ↦ status_text e.status ]))
      (field "pccb_id" (str claim.pccb_id) end))

unfoldable pub claim_once :
    ActionConsumptionClaim → Time → Exec StoreState (Option ActionConsumptionState)
unfolding cleared
claim_once claim now = assert_store_monotonic >> λ s.
    let rows = cleared claim.replay_key now s.action_consumption in
    if is_some (select row_key claim.replay_key rows)
    then (do
      existing ← inspect claim.replay_key now
      refuse (replay_error "DUPLICATE_REPLAY" (duplicate_details claim existing)))
        s
    else (commit (insert_or_ignore row_key (claimed_row claim now) rows)
          >> inspect claim.replay_key now)
        s

-- the `details` of REPLAY_STATE_INVALID
abbrev pub invalid_details : String → Option ActionConsumptionState → Fields
invalid_details key existing = field "replay_key" (str key) (elim existing [
  | none ↦ end
  | some e ↦ field "existing_status" (str (status_text e.status)) end
])

unfoldable pub mark_consumed : String → Time → Exec StoreState (Option ActionConsumptionState)
mark_consumed key now = assert_store_monotonic >> λ s.
    if rowcount (is_claim_of key) s.action_consumption == 1
    then (commit (update_where (is_claim_of key) (set_consumed now) s.action_consumption)
          >> inspect key now)
        s
    else (do
      existing ← inspect key now
      refuse (replay_error "REPLAY_STATE_INVALID" (invalid_details key existing)))
        s

unfoldable pub release_claim :
    String → Time → String → Exec StoreState (Option ActionConsumptionState)
release_claim key now reason = assert_store_monotonic >> λ s. elim (select_row key s) [
  | none ↦ (refused (replay_error "REPLAY_CLAIM_MISSING" (field "replay_key" (str key) end)), s)
  | some current ↦
      if status_beq current.status consumed
      then (ok (some current), s)
      else if rowcount (is_claim_of key) s.action_consumption == 1
      then (commit (update_where (is_claim_of key) (set_released now reason) s.action_consumption)
            >> inspect key now)
          s
      else (
        refused (
            replay_error "REPLAY_RELEASE_INVALID" (
              field "replay_key" (str key)
                (field "existing_status" (str (status_text current.status)) end))),
        s,
      )
]

unfoldable pub purge_expired : Time → Exec StoreState ℕ
purge_expired now = assert_store_monotonic >> λ s.
    let overdue = rowcount (is_overdue_claim now) s.action_consumption in
    if overdue == 0
    then (ok 0, s)
    else (commit (update_where (is_overdue_claim now) (set_expired now) s.action_consumption)
          >> pure overdue)
        s
