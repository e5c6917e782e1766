-- ===== src/Replay/Spending.antt =====
-- What `mark_consumed` and `release_claim` return, on every branch.
use actenon_kernel.Prelude.{
  Bool-cases, List, Option, Option-cases, String, ap, arith, eq_iff, if◌then◌else◌, inl, inr,
  nat_eq, none, refl, some, string_eq, true, ℕ, ◌+◌, ◌==◌, ◌∙◌, ◌≡◌, ◌≢◌, ◌≤◌,
}
use actenon_kernel.Json.{end, field, str}
use actenon_kernel.Core.Refusal.{Result, bind-ok, ok, refuse, refused, replay_error, ◌>>=◌, ◌>>◌}
use actenon_kernel.Core.Time.{Time}
use actenon_kernel.Sql.{
  IsKeyed, matches, rowcount, rowcount-eq-matches, select, select-key, select-update_where,
  update_where,
}
use actenon_kernel.Replay.Model.{
  ActionConsumptionState, StoreState, claimed, consumed, row_key, status_beq, status_text,
}
use actenon_kernel.Replay.Store.{
  assert_store_monotonic, commit, inspect, invalid_details, is_claim_of, mark_consumed,
  release_claim, set_consumed, set_released,
}
use actenon_kernel.Replay.Inspect.{
  assert-current, commit-current, current, inspect_lem, inspected, seen,
}

-- The answers that the record of the key calls for.
abbrev pub consumption :
    String → Time → Option ActionConsumptionState → Result (Option ActionConsumptionState)
consumption key now none = refused (replay_error "REPLAY_STATE_INVALID" (invalid_details key none))
consumption key now (some r) =
    if status_beq r.status claimed
    then ok (some (set_consumed now r))
    else refused (replay_error "REPLAY_STATE_INVALID" (invalid_details key (some r)))

abbrev pub release :
    String → Time → String → Option ActionConsumptionState → Result (Option ActionConsumptionState)
release key now reason none =
    refused (replay_error "REPLAY_CLAIM_MISSING" (field "replay_key" (str key) end))
release key now reason (some r) =
    if status_beq r.status consumed
    then ok (some r)
    else if status_beq r.status claimed
    then ok (some (set_released now reason r))
    else refused (
        replay_error "REPLAY_RELEASE_INVALID"
          (field "replay_key" (str key) (field "existing_status" (str (status_text r.status)) end)))

module _ (key : String) (f : ActionConsumptionState → ActionConsumptionState)
    (same : (r : ActionConsumptionState) → row_key (f r) ≡ row_key r) (now : Time)
    (rows : List ActionConsumptionState) (counter : ℕ) where
  -- the update of the one claim, its commit and the `inspect` that follows
  update_inspect :
      (r : ActionConsumptionState)
      → select row_key key rows ≡ some r
      → r.status ≡ claimed
      → (f r).status ≢ claimed
      → ((commit (update_where (is_claim_of key) f rows) >> inspect key now)
          (current rows counter counter)).0
        ≡ ok (some (f r))
  update_inspect r e c moved =
      let rows' = update_where (is_claim_of key) f rows in
      let found : select row_key key rows' ≡ some (f r) =
        select-update_where row_key (is_claim_of key) f same key rows
        ∙ ground (arith, eq_iff (row_key r) key, select-key row_key key rows r e) in
      ap {B = Result (Option ActionConsumptionState)}
        (λ (p : Result (Option ActionConsumptionState) × StoreState). p.0)
        {y = (
          ok (seen now (select row_key key rows')),
          inspected key now rows' (counter + 1) (select row_key key rows'),
        )}
        (bind-ok (commit rows') (λ _. inspect key now) (current rows counter counter) tt
            (current rows' (counter + 1) (counter + 1)) (commit-current rows counter rows')
          ∙ inspect_lem key now rows' (counter + 1) (counter + 1) (omega arith))
      ∙ rw found (ground arith)

claim_count :
    (key : String) (rows : List ActionConsumptionState)
    → IsKeyed row_key rows
    → rowcount (is_claim_of key) rows ≡ matches (is_claim_of key) (select row_key key rows)
claim_count key rows h =
    rowcount-eq-matches row_key (is_claim_of key) key rows
      (λ r e. (eq_iff (row_key r) key).0 (ground arith)) h

module _ (key : String) (now : Time) (rows : List ActionConsumptionState) (counter observed : ℕ)
    (h : IsKeyed row_key rows) (le : observed ≤ counter) where
  key_of :
      (r : ActionConsumptionState) → select row_key key rows ≡ some r → (row_key r == key) ≡ true
  key_of r e = (eq_iff (row_key r) key).1 (select-key row_key key rows r e)

  spend_refused :
      (o : Option ActionConsumptionState)
      → seen now (select row_key key rows) ≡ o
      → ((do
        existing ← inspect key now
        refuse {A = Option ActionConsumptionState}
            (replay_error "REPLAY_STATE_INVALID" (invalid_details key existing)))
          (current rows counter counter)).0
        ≡ refused (replay_error "REPLAY_STATE_INVALID" (invalid_details key o))
  unfolding ◌>>=◌ refuse
  spend_refused o e = rw (inspect_lem key now rows counter counter (omega arith), e)

  -- Over tables that are not behind what the store object has observed, `mark_consumed` returns the
  -- record as consumed exactly when it is a claim, overdue or not, and otherwise refuses with
  -- REPLAY_STATE_INVALID and the status that is there.
  pub mark_consumed_result :
      (mark_consumed key now (current rows counter observed)).0
      ≡ consumption key now (select row_key key rows)
  unfolding mark_consumed
  mark_consumed_result =
      ap {B = Result (Option ActionConsumptionState)}
        (λ (p : Result (Option ActionConsumptionState) × StoreState). p.0)
        (bind-ok assert_store_monotonic _ (current rows counter observed) tt
          (current rows counter counter) (assert-current rows counter observed le))
      ∙ rw (claim_count key rows h) (elim (Option-cases (select row_key key rows)) [
        | inl e ↦ rw e (spend_refused none (rw e))
        | inr (r, e) ↦ elim (Bool-cases (status_beq r.status claimed)) [
          | inl c ↦ rw e (
              rw (key_of r e, c)
                (update_inspect key (set_consumed now) (λ _. refl) now rows counter r e
                  (ground arith) (λ p. cc)))
          | inr c ↦ rw e (rw (key_of r e, c) (spend_refused (some r) (rw e (rw c))))
        ]
      ])

  -- Over tables that are not behind what the store object has observed, `release_claim` releases a
  -- claim with its reason, returns a consumed record as it is, and refuses a missing key and a
  -- record that is already released or expired.
  pub release_claim_result :
      (reason : String)
      → (release_claim key now reason (current rows counter observed)).0
        ≡ release key now reason (select row_key key rows)
  unfolding release_claim
  release_claim_result reason =
      ap {B = Result (Option ActionConsumptionState)}
        (λ (p : Result (Option ActionConsumptionState) × StoreState). p.0)
        (bind-ok assert_store_monotonic _ (current rows counter observed) tt
          (current rows counter counter) (assert-current rows counter observed le))
      ∙ elim (Option-cases (select row_key key rows)) [
        | inl e ↦ rw e
        | inr (r, e) ↦ elim (Bool-cases (status_beq r.status consumed)) [
          | inl done ↦ rw e (rw done)
          | inr live ↦ elim (Bool-cases (status_beq r.status claimed)) [
            | inl c ↦ rw e (
                rw live (
                  rw (claim_count key rows h) (
                    rw e (
                      rw (key_of r e, c)
                        (update_inspect key (set_released now reason) (λ _. refl) now rows counter r
                          e (ground arith) (λ p. cc))))))
            | inr c ↦ rw e (rw live (rw (claim_count key rows h) (rw e (rw (key_of r e, c)))))
          ]
        ]
      ]
