-- ===== src/Replay/Methods.antt =====
-- The methods of actenon/replay/dbapi.py, as moves of each record.
use actenon_kernel.Prelude.{
  Bool-cases, List, Option-cases, String, arith, eq_iff, inl, inr, is_some, nat_eq, refl, string_eq,
  true, ◌==◌, ◌≡◌, ◌≢◌,
}
use actenon_kernel.Core.Refusal.{pure, refuse, replay_error}
use actenon_kernel.Core.Time.{Time}
use actenon_kernel.Sql.{
  IsKeyed, delete_where-IsKeyed, insert_or_ignore, insert_or_ignore-IsKeyed, rowcount, select,
  select-delete_where, select-insert_or_ignore, select-update_where, undeleted, update_where,
  update_where-IsKeyed, updated,
}
use actenon_kernel.Replay.Model.{
  ActionConsumptionClaim, ActionConsumptionState, StoreState, claimed, consumed, row_key,
  status_beq,
}
use actenon_kernel.Replay.Store.{
  assert_store_monotonic, claim_once, claimed_row, cleared, commit, duplicate_details, inspect,
  invalid_details, is_claim_of, is_overdue_claim, is_overdue_claim_of, is_reclaimable,
  mark_consumed, purge_expired, release_claim, select_row, set_consumed, set_expired, set_released,
}
use actenon_kernel.Replay.Moves.{
  Acts, Acts-bind, Acts-refl, Evolves, Evolves-trans, Evolves-undeleted, Evolves-updated, claim_row,
  consume_row, expire_row, move, release_row, stay,
}
use actenon_kernel.Replay.Steps.{
  assert-Acts, claim_of-claimed, commit-Acts, inspect-Acts, update-Acts,
}

-- the rows of `claim_once` before its insertion
pub cleared-IsKeyed :
    (key : String) (now : Time) (rows : List ActionConsumptionState)
    → IsKeyed row_key rows
    → IsKeyed row_key (cleared key now rows)
unfolding cleared
cleared-IsKeyed key now rows h =
    delete_where-IsKeyed row_key (is_reclaimable key)
      (update_where (is_overdue_claim_of key now) (set_expired now) rows)
      (update_where-IsKeyed row_key (is_overdue_claim_of key now) (set_expired now) (λ r. refl) rows
        h)

pub select-cleared :
    (key : String) (now : Time) (k : String) (rows : List ActionConsumptionState)
    → IsKeyed row_key rows
    → select row_key k (cleared key now rows)
      ≡ undeleted
          (is_reclaimable key)
          (updated (is_overdue_claim_of key now) (set_expired now) (select row_key k rows))
unfolding cleared
select-cleared key now k rows h =
    rw
      (select-delete_where row_key (is_reclaimable key) k
        (update_where (is_overdue_claim_of key now) (set_expired now) rows)
        (update_where-IsKeyed row_key (is_overdue_claim_of key now) (set_expired now) (λ r. refl)
          rows h))
      (rw (
        select-update_where row_key (is_overdue_claim_of key now) (set_expired now) (λ r. refl) k
          rows))

overdue_claim_of-claimed :
    (key : String) (now : Time) (r : ActionConsumptionState)
    → is_overdue_claim_of key now r ≡ true
    → r.status ≡ claimed
overdue_claim_of-claimed key now r h = ground arith

overdue_claim-claimed :
    (now : Time) (r : ActionConsumptionState) → is_overdue_claim now r ≡ true → r.status ≡ claimed
overdue_claim-claimed now r h = ground arith

reclaimable-ne :
    (key : String) (r : ActionConsumptionState)
    → is_reclaimable key r ≡ true
    → (r.status ≢ claimed) × (r.status ≢ consumed)
reclaimable-ne key r h = ground arith

cleared-Evolves :
    (key : String) (now : Time) (k : String) (rows : List ActionConsumptionState)
    → IsKeyed row_key rows
    → Evolves (select row_key k rows) (select row_key k (cleared key now rows))
cleared-Evolves key now k rows h = rw (select-cleared key now k rows h) (
    Evolves-trans
      (Evolves-updated (is_overdue_claim_of key now) (set_expired now)
        (λ r e. expire_row r now (overdue_claim_of-claimed key now r e)) (select row_key k rows))
      (Evolves-undeleted (is_reclaimable key) (reclaimable-ne key)
        (updated (is_overdue_claim_of key now) (set_expired now) (select row_key k rows))))

inserted-Evolves :
    (claim : ActionConsumptionClaim) (now : Time) (k : String) (rows : List ActionConsumptionState)
    → Evolves
        (select row_key k rows)
        (select row_key k (insert_or_ignore row_key (claimed_row claim now) rows))
inserted-Evolves claim now k rows =
    rw (select-insert_or_ignore row_key k (claimed_row claim now) rows)
      (elim (Option-cases (select row_key claim.replay_key rows)) [
        | inr (r, e) ↦ rw e stay
        | inl e ↦ rw e (elim (Bool-cases (claim.replay_key == k)) [
          | inr ne ↦ rw ne stay
          | inl same ↦
              rw (same, ← (eq_iff claim.replay_key k).0 same, e) (move stay (claim_row claim now))
        ])
      ])

pub claim_once-Acts :
    (claim : ActionConsumptionClaim) (now : Time) (s : StoreState)
    → Acts s (claim_once claim now s).1
unfolding claim_once refuse
claim_once-Acts claim now s = Acts-bind assert_store_monotonic _ s (assert-Acts s) λ _ t.
    let rows = cleared claim.replay_key now t.action_consumption in
    elim (Bool-cases (is_some (select row_key claim.replay_key rows))) [
      | inl taken ↦ rw taken (
          Acts-bind (inspect claim.replay_key now)
            (λ existing.
              refuse (replay_error "DUPLICATE_REPLAY" (duplicate_details claim existing)))
            t (inspect-Acts claim.replay_key now t) (λ _ u. Acts-refl u))
      | inr free ↦ rw free (
          Acts-bind (commit (insert_or_ignore row_key (claimed_row claim now) rows))
            (λ _. inspect claim.replay_key now) t
            (commit-Acts (insert_or_ignore row_key (claimed_row claim now) rows) t
              (λ h.
                insert_or_ignore-IsKeyed row_key (claimed_row claim now) rows
                  (cleared-IsKeyed claim.replay_key now t.action_consumption h))
              (λ h k.
                Evolves-trans (cleared-Evolves claim.replay_key now k t.action_consumption h)
                  (inserted-Evolves claim now k rows)))
            (λ _. inspect-Acts claim.replay_key now))
    ]

consume_one-Acts :
    (key : String) (now : Time) (s : StoreState)
    → Acts s (commit (update_where (is_claim_of key) (set_consumed now) s.action_consumption) s).1
consume_one-Acts key now =
    update-Acts (is_claim_of key) (set_consumed now) (λ r. refl)
      (λ r h. consume_row r now (claim_of-claimed key r h))

pub mark_consumed-Acts :
    (key : String) (now : Time) (s : StoreState) → Acts s (mark_consumed key now s).1
unfolding mark_consumed refuse
mark_consumed-Acts key now s = Acts-bind assert_store_monotonic _ s (assert-Acts s) λ _ t.
    elim (Bool-cases (rowcount (is_claim_of key) t.action_consumption == 1)) [
      | inl e ↦ rw e (
          Acts-bind
            (commit (update_where (is_claim_of key) (set_consumed now) t.action_consumption))
            (λ _. inspect key now) t (consume_one-Acts key now t) (λ _. inspect-Acts key now))
      | inr e ↦ rw e (
          Acts-bind (inspect key now)
            (λ existing.
              refuse (replay_error "REPLAY_STATE_INVALID" (invalid_details key existing)))
            t (inspect-Acts key now t) (λ _ u. Acts-refl u))
    ]

pub release_claim-Acts :
    (key : String) (now : Time) (reason : String) (s : StoreState)
    → Acts s (release_claim key now reason s).1
unfolding release_claim
release_claim-Acts key now reason s = Acts-bind assert_store_monotonic _ s (assert-Acts s) λ _ t.
    elim (Option-cases (select_row key t)) [
      | inl e ↦ rw e (Acts-refl t)
      | inr (r, e) ↦ rw e (elim (Bool-cases (status_beq r.status consumed)) [
        | inl done ↦ rw done (Acts-refl t)
        | inr live ↦
            rw live (elim (Bool-cases (rowcount (is_claim_of key) t.action_consumption == 1)) [
              | inl one ↦ rw one (
                  Acts-bind
                    (commit (
                      update_where (is_claim_of key) (set_released now reason)
                        t.action_consumption))
                    (λ _. inspect key now) t
                    (update-Acts (is_claim_of key) (set_released now reason) (λ r. refl)
                      (λ r h. release_row r now reason (claim_of-claimed key r h)) t)
                    (λ _. inspect-Acts key now))
              | inr other ↦ rw other (Acts-refl t)
            ])
      ])
    ]

pub purge_expired-Acts : (now : Time) (s : StoreState) → Acts s (purge_expired now s).1
unfolding purge_expired pure
purge_expired-Acts now s = Acts-bind assert_store_monotonic _ s (assert-Acts s) λ _ t.
    elim (Bool-cases (rowcount (is_overdue_claim now) t.action_consumption == 0)) [
      | inl e ↦ rw e (Acts-refl t)
      | inr e ↦ rw e (
          Acts-bind
            (commit (update_where (is_overdue_claim now) (set_expired now) t.action_consumption))
            (λ _. pure (rowcount (is_overdue_claim now) t.action_consumption)) t
            (update-Acts (is_overdue_claim now) (set_expired now) (λ r. refl)
              (λ r h. expire_row r now (overdue_claim-claimed now r h)) t)
            (λ _ u. Acts-refl u))
    ]
