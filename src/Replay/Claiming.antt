-- ===== src/Replay/Claiming.antt =====
-- The record that a claim returns (actenon/replay/dbapi.py, actenon/replay/service.py).
use actenon_kernel.Prelude.{
  Bool, Bool-cases, List, Option, Option-cases, String, arith, eq_iff, false, inl, inr, is_some,
  leb, nat_eq, none, refl, some, string_eq, suc, true, zero, ℕ, ◌&&◌, ◌==◌, ◌≡◌,
}
use actenon_kernel.Json.{Json}
use actenon_kernel.Core.Refusal.{
  bind_fails, ok, ok_of_bind, refuse, replay_error, returned_ok, ◌>>◌,
}
use actenon_kernel.Core.Time.{Time}
use actenon_kernel.Contracts.{ProtectedExecutionRequest}
use actenon_kernel.Sql.{
  insert_or_ignore, select, select-insert_or_ignore, select-key, select-update_where, update_where,
}
use actenon_kernel.Replay.Model.{
  ActionConsumptionClaim, ActionConsumptionState, StoreState, claimed, row_key, status_beq,
}
use actenon_kernel.Replay.Store.{
  assert_store_monotonic, claim_once, claimed_row, cleared, commit, duplicate_details, inspect,
  inspect_fuel, is_claim_of, select_row, set_expired,
}
use actenon_kernel.Replay.Steps.{assert-rows, commit-rows}
use actenon_kernel.Replay.Service.{build_replay_key, claim_of, claim_request}

-- a record, of this key
abbrev pub holds_key : String → Option ActionConsumptionState → Bool
holds_key key none = false
holds_key key (some r) = row_key r == key

select-holds_key :
    (key : String) (s : StoreState) (r : ActionConsumptionState)
    → select_row key s ≡ some r
    → holds_key key (some r) ≡ true
select-holds_key key s r h =
    (eq_iff (row_key r) key).1 (select-key row_key key s.action_consumption r h)

still_there :
    (key : String) (now : Time) (rows : List ActionConsumptionState) (r : ActionConsumptionState)
    → select row_key key rows ≡ some r
    → is_some (select row_key key (update_where (is_claim_of key) (set_expired now) rows)) ≡ true
still_there key now rows r h =
    rw (select-update_where row_key (is_claim_of key) (set_expired now) (λ r. refl) key rows, h)
      (ground arith)

module _ (fuel : ℕ) (key : String) (now : Time) (o : Option ActionConsumptionState)
    (deeper : (s : StoreState)
      → is_some (select_row key s) ≡ true
      → (inspect_fuel fuel key now s).0 ≡ ok o
      → holds_key key o ≡ true) where
  -- after the mark of an overdue claim
  expired_found :
      (t : StoreState) (r : ActionConsumptionState)
      → select_row key t ≡ some r
      → ((commit (update_where (is_claim_of key) (set_expired now) t.action_consumption)
            >> inspect_fuel fuel key now)
          t).0
        ≡ ok o
      → holds_key key o ≡ true
  expired_found t r e h =
      let rows = update_where (is_claim_of key) (set_expired now) t.action_consumption in
      let (_, done, _, same) =
        ok_of_bind (commit rows) (λ _. inspect_fuel fuel key now) t (returned_ok _ o h) in
      deeper (commit rows t).1
        (rw (commit-rows rows t done) (still_there key now t.action_consumption r e)) (rw same at h)

inspect_fuel-holds_key :
    (fuel : ℕ) (key : String) (now : Time) (s : StoreState) (o : Option ActionConsumptionState)
    → is_some (select_row key s) ≡ true
    → (inspect_fuel fuel key now s).0 ≡ ok o
    → holds_key key o ≡ true
unfolding inspect_fuel
inspect_fuel-holds_key zero key now s o there h = cc
inspect_fuel-holds_key (suc fuel) key now s o there h =
    let (_, _, _, same) = ok_of_bind assert_store_monotonic _ s (returned_ok _ o h) in
    let t = (assert_store_monotonic s).1 in
    let stays : is_some (select_row key t) ≡ true = rw (assert-rows s) there in
    let answer = rw same at h in
    elim (Option-cases (select_row key t)) [
      | inl e ↦ absurd (cc (stays, e))
      | inr (r, e) ↦
          let answer = rw e at answer in
          elim (Bool-cases (status_beq r.status claimed && leb r.expires_at now)) [
            | inr l ↦
                let answer = rw l at answer in
                let found : some r ≡ o = cc answer in rw (← found) (select-holds_key key t r e)
            | inl l ↦
                let answer = rw l at answer in
                expired_found fuel key now o (λ s. inspect_fuel-holds_key fuel key now s o) t r e
                  answer
          ]
    ]

inserted :
    (claim : ActionConsumptionClaim) (now : Time) (rows : List ActionConsumptionState)
    → is_some (select row_key claim.replay_key rows) ≡ false
    → is_some
        (select row_key claim.replay_key (insert_or_ignore row_key (claimed_row claim now) rows))
      ≡ true
inserted claim now rows free =
    rw (select-insert_or_ignore row_key claim.replay_key (claimed_row claim now) rows, free)
      (rw ((eq_iff claim.replay_key claim.replay_key).1 refl) refl)

pub claim_once-holds_key :
    (claim : ActionConsumptionClaim) (now : Time) (s : StoreState)
    (o : Option ActionConsumptionState)
    → (claim_once claim now s).0 ≡ ok o
    → holds_key claim.replay_key o ≡ true
unfolding claim_once inspect assert_store_monotonic refuse
claim_once-holds_key claim now s o h =
    let key = claim.replay_key in
    let (_, _, _, same) = ok_of_bind assert_store_monotonic _ s (returned_ok _ o h) in
    let t = (assert_store_monotonic s).1 in
    let rows = cleared key now t.action_consumption in
    let answer = rw same at h in
    elim (Bool-cases (is_some (select row_key key rows))) [
      | inl taken ↦ absurd (
          cc (
            returned_ok _ o (rw taken at answer),
            bind_fails (inspect key now)
                (λ existing.
                  refuse (replay_error "DUPLICATE_REPLAY" (duplicate_details claim existing)))
                t (λ _ _. refl),
          ))
      | inr free ↦
          let answer = rw free at answer in
          let added = insert_or_ignore row_key (claimed_row claim now) rows in
          let (_, done, _, then_same) =
            ok_of_bind (commit added) (λ _. inspect key now) t (returned_ok _ o answer) in
          inspect_fuel-holds_key 2 key now (commit added t).1 o
            (rw (commit-rows added t done) (inserted claim now rows free)) (rw then_same at answer)
    ]

-- `claim_request` builds the key of the record that it returns.
pub claim_request-built :
    (sha256_hex : Json → Option String) (request : ProtectedExecutionRequest) (s : StoreState)
    (o : Option ActionConsumptionState)
    → (claim_request sha256_hex request s).0 ≡ ok o
    → (key : String) × (build_replay_key sha256_hex request.intent request.pccb ≡ some key)
      × (holds_key key o ≡ true)
unfolding claim_request
claim_request-built sha256_hex request s o h =
    elim (Option-cases (build_replay_key sha256_hex request.intent request.pccb)) [
      | inl e ↦ absurd (cc (rw e at h))
      | inr (key, e) ↦
          (key, e, claim_once-holds_key (claim_of request key) request.context.now s o (rw e at h))
    ]
