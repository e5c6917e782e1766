-- ===== src/Replay/Inspect.antt =====
-- `inspect` of actenon/replay/dbapi.py: its result, and its calls of itself.
use actenon_kernel.Prelude.{
  Bool, Bool-cases, List, Option, Option-cases, String, arith, eq_iff, false, if◌then◌else◌, inl,
  inr, leb, none, refl, some, suc, true, ℕ, ◌&&◌, ◌+◌, ◌∙◌, ◌≡◌, ◌≤◌,
}
use actenon_kernel.Core.Refusal.{bind-ok, ok}
use actenon_kernel.Core.Time.{Time}
use actenon_kernel.Sql.{select, select-key, select-update_where, update_where}
use actenon_kernel.Replay.Model.{ActionConsumptionState, StoreState, claimed, row_key, status_beq}
use actenon_kernel.Replay.Store.{
  assert_store_monotonic, commit, inspect, inspect_fuel, is_claim_of, set_expired,
}

-- A store whose tables have a counter that is not behind what the store object has observed.
abbrev pub current : List ActionConsumptionState → ℕ → ℕ → StoreState
current rows counter observed = record {
  database = record { action_consumption = rows; mutation_counter = some counter };
  last_observed_counter = observed;
}

module _ (rows : List ActionConsumptionState) (counter : ℕ) where
  pub assert-current :
      (observed : ℕ)
      → observed ≤ counter
      → assert_store_monotonic (current rows counter observed)
        ≡ (ok tt, current rows counter counter)
  unfolding assert_store_monotonic
  assert-current observed h = ground arith

  pub commit-current :
      (written : List ActionConsumptionState)
      → commit written (current rows counter counter)
        ≡ (ok tt, current written (counter + 1) (counter + 1))
  unfolding commit
  commit-current written = ground arith

-- a claim that `inspect` finds to be over, by the clock and not by the text
abbrev pub has_lapsed : Time → Option ActionConsumptionState → Bool
has_lapsed now none = false
has_lapsed now (some r) = status_beq r.status claimed && leb r.expires_at now

-- the record that `inspect` shows
abbrev pub seen : Time → Option ActionConsumptionState → Option ActionConsumptionState
seen now none = none
seen now (some r) =
    some (if status_beq r.status claimed && leb r.expires_at now then set_expired now r else r)

abbrev pub inspected :
    String → Time → List ActionConsumptionState → ℕ → Option ActionConsumptionState → StoreState
inspected key now rows counter o =
    if has_lapsed now o
    then current (update_where (is_claim_of key) (set_expired now) rows) (counter + 1) (counter + 1)
    else current rows counter counter

module _ (key : String) (now : Time) (rows : List ActionConsumptionState) (counter : ℕ) where
  -- a round that finds no overdue claim
  inspect_settled :
      (fuel observed : ℕ)
      → observed ≤ counter
      → has_lapsed now (select row_key key rows) ≡ false
      → inspect_fuel (suc fuel) key now (current rows counter observed)
        ≡ (ok (select row_key key rows), current rows counter counter)
  unfolding inspect_fuel
  inspect_settled fuel observed h live =
      bind-ok assert_store_monotonic _ (current rows counter observed) tt
        (current rows counter counter) (assert-current rows counter observed h)
      ∙ elim (Option-cases (select row_key key rows)) [
        | inl e ↦ rw e
        | inr (r, e) ↦ rw e (rw (rw e at live))
      ]

module _ (key : String) (now : Time) (rows : List ActionConsumptionState) (counter : ℕ) where
  expired_rows : List ActionConsumptionState
  expired_rows = update_where (is_claim_of key) (set_expired now) rows

  -- what the second round finds
  select-expired_rows :
      (r : ActionConsumptionState)
      → select row_key key rows ≡ some r
      → r.status ≡ claimed
      → select row_key key expired_rows ≡ some (set_expired now r)
  unfolding expired_rows
  select-expired_rows r e c =
      select-update_where row_key (is_claim_of key) (set_expired now) (λ r. refl) key rows
      ∙ ground (arith, eq_iff (row_key r) key, select-key row_key key rows r e)

  -- a round that finds an overdue claim, with one more to follow
  inspect_overdue :
      (fuel observed : ℕ) (r : ActionConsumptionState)
      → observed ≤ counter
      → select row_key key rows ≡ some r
      → (status_beq r.status claimed && leb r.expires_at now) ≡ true
      → inspect_fuel (suc (suc fuel)) key now (current rows counter observed)
        ≡ (ok (some (set_expired now r)), current expired_rows (counter + 1) (counter + 1))
  unfolding inspect_fuel expired_rows
  inspect_overdue fuel observed r h e over =
      bind-ok assert_store_monotonic _ (current rows counter observed) tt
        (current rows counter counter) (assert-current rows counter observed h)
      ∙ rw e (
          rw over (
            bind-ok (commit expired_rows) (λ _. inspect_fuel (suc fuel) key now)
              (current rows counter counter) tt (current expired_rows (counter + 1) (counter + 1))
              (commit-current rows counter expired_rows)
            ∙ inspect_settled key now expired_rows (counter + 1) fuel (counter + 1) (omega arith)
                (rw found)
            ∙ rw found))
    where
      found : select row_key key expired_rows ≡ some (set_expired now r)
      found = select-expired_rows r e (ground arith)

-- With two rounds or more, `inspect` over tables that are not behind what the store object has
-- observed returns the record as the clock makes it, writes only to mark an overdue claim, and does
-- not run out of calls of itself.
pub inspect_fuel_lem :
    (fuel : ℕ) (key : String) (now : Time) (rows : List ActionConsumptionState)
    (counter observed : ℕ)
    → observed ≤ counter
    → inspect_fuel (suc (suc fuel)) key now (current rows counter observed) ≡ (
      ok (seen now (select row_key key rows)),
      inspected key now rows counter (select row_key key rows),
    )
unfolding expired_rows
inspect_fuel_lem fuel key now rows counter observed h =
    elim (Option-cases (select row_key key rows)) [
      | inl e ↦ inspect_settled key now rows counter (suc fuel) observed h (rw e) ∙ rw e
      | inr (r, e) ↦ elim (Bool-cases (status_beq r.status claimed && leb r.expires_at now)) [
        | inl over ↦ inspect_overdue key now rows counter fuel observed r h e over ∙ rw e (rw over)
        | inr live ↦
            inspect_settled key now rows counter (suc fuel) observed h (rw e live) ∙ rw e (rw live)
      ]
    ]

pub inspect_lem :
    (key : String) (now : Time) (rows : List ActionConsumptionState) (counter observed : ℕ)
    → observed ≤ counter
    → inspect key now (current rows counter observed) ≡ (
      ok (seen now (select row_key key rows)),
      inspected key now rows counter (select row_key key rows),
    )
unfolding inspect
inspect_lem key now rows counter observed h = inspect_fuel_lem 0 key now rows counter observed h
