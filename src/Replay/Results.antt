-- ===== src/Replay/Results.antt =====
-- What the mutating methods return, on every branch, over tables that have not been rolled back.
use actenon_kernel.Prelude.{
  Bool, Bool-cases, List, Option, Option-cases, String, ap, arith, eq_iff, false, if◌then◌else◌,
  inl, inr, is_some, none, not, some, true, ℕ, ◌&&◌, ◌+◌, ◌||◌, ◌∙◌, ◌≡◌, ◌≤◌,
}
use actenon_kernel.Core.Refusal.{bind-ok, ok, refuse, refused, replay_error}
use actenon_kernel.Core.Time.{Time, text_leb}
use actenon_kernel.Sql.{IsKeyed, insert_or_ignore, select, select-insert_or_ignore, select-key}
use actenon_kernel.Replay.Model.{
  ActionConsumptionClaim, ActionConsumptionState, claimed, expired, released, row_key, status_beq,
}
use actenon_kernel.Replay.Store.{
  assert_store_monotonic, claim_once, claimed_row, cleared, commit, duplicate_details, inspect,
}
use actenon_kernel.Replay.Methods.{select-cleared}
use actenon_kernel.Replay.Inspect.{
  assert-current, commit-current, current, inspect_lem, inspected, seen,
}

-- A key may be claimed if it has no record, or one that is released, expired, or a claim that is
-- overdue by the text of its timestamp.
abbrev pub is_free : Time → Option ActionConsumptionState → Bool
is_free now none = true
is_free now (some r) =
    status_beq r.status released
    || (status_beq r.status expired || (status_beq r.status claimed && text_leb r.expires_at now))

module _ (key : String) (now : Time) (rows : List ActionConsumptionState)
    (h : IsKeyed row_key rows) where
  cleared_taken :
      is_some (select row_key key (cleared key now rows))
      ≡ not (is_free now (select row_key key rows))
  cleared_taken =
      rw (select-cleared key now key rows h) (elim (Option-cases (select row_key key rows)) [
        | inl e ↦ rw e
        | inr (r, e) ↦
            rw e (ground (arith, eq_iff (row_key r) key, select-key row_key key rows r e))
      ])

module _ (claim : ActionConsumptionClaim) (now : Time) (rows : List ActionConsumptionState)
    (counter observed : ℕ) (h : IsKeyed row_key rows) (le : observed ≤ counter) where
  abbrev pub written : List ActionConsumptionState
  written = insert_or_ignore row_key (claimed_row claim now) (cleared claim.replay_key now rows)

  -- a free key: the claim is inserted, committed and inspected
  pub claim_inserts :
      is_free now (select row_key claim.replay_key rows) ≡ true
      → claim_once claim now (current rows counter observed) ≡ (
        ok (seen now (select row_key claim.replay_key written)),
        inspected claim.replay_key now written
            (counter + 1)
            (select row_key claim.replay_key written),
      )
  unfolding claim_once
  claim_inserts free =
      bind-ok assert_store_monotonic _ (current rows counter observed) tt
        (current rows counter counter) (assert-current rows counter observed le)
      ∙ rw (cleared_taken claim.replay_key now rows h ∙ ap not free) (
          bind-ok (commit written) (λ _. inspect claim.replay_key now)
            (current rows counter counter) tt (current written (counter + 1) (counter + 1))
            (commit-current rows counter written)
          ∙ inspect_lem claim.replay_key now written (counter + 1) (counter + 1) (omega arith))

  pub select-written :
      is_free now (select row_key claim.replay_key rows) ≡ true
      → select row_key claim.replay_key written ≡ some (claimed_row claim now)
  select-written free =
      rw
        (
          select-insert_or_ignore row_key claim.replay_key (claimed_row claim now)
              (cleared claim.replay_key now rows),
          cleared_taken claim.replay_key now rows h ∙ ap not free,
        )
        (ground (arith, eq_iff claim.replay_key claim.replay_key))

  -- a key that is not free: nothing is written but what `inspect` marks
  claim_refused :
      is_free now (select row_key claim.replay_key rows) ≡ false
      → claim_once claim now (current rows counter observed) ≡ (
        refused (
            replay_error "DUPLICATE_REPLAY"
              (duplicate_details claim (seen now (select row_key claim.replay_key rows)))),
        inspected claim.replay_key now rows counter (select row_key claim.replay_key rows),
      )
  unfolding claim_once refuse
  claim_refused taken =
      bind-ok assert_store_monotonic _ (current rows counter observed) tt
        (current rows counter counter) (assert-current rows counter observed le)
      ∙ rw (cleared_taken claim.replay_key now rows h ∙ ap not taken) (
          bind-ok (inspect claim.replay_key now)
            (λ existing.
              refuse (replay_error "DUPLICATE_REPLAY" (duplicate_details claim existing)))
            (current rows counter counter) (seen now (select row_key claim.replay_key rows))
            (inspected claim.replay_key now rows counter (select row_key claim.replay_key rows))
            (inspect_lem claim.replay_key now rows counter counter (omega arith)))

  -- Over tables that are not behind what the store object has observed, `claim_once` returns the
  -- new claim exactly when the key is free (no record, a released or expired one, or a claim that
  -- is overdue by the text of its timestamp), and otherwise refuses with DUPLICATE_REPLAY and the
  -- status that the record then shows.
  pub claim_once_result : (claim_once claim now (current rows counter observed)).0 ≡ (
      if is_free now (select row_key claim.replay_key rows)
      then ok (seen now (some (claimed_row claim now)))
      else refused (
          replay_error "DUPLICATE_REPLAY"
            (duplicate_details claim (seen now (select row_key claim.replay_key rows)))))
  claim_once_result = elim (Bool-cases (is_free now (select row_key claim.replay_key rows))) [
    | inl free ↦ rw (claim_inserts free, select-written free, free)
    | inr taken ↦ rw (claim_refused taken, taken)
  ]

module _ (key : String) (now : Time) (rows : List ActionConsumptionState) (counter observed : ℕ)
    (h : IsKeyed row_key rows) (le : observed ≤ counter) where
  abbrev pub is_claim : Option ActionConsumptionState → Bool
  is_claim none = false
  is_claim (some r) = status_beq r.status claimed
