-- ===== src/Replay/Late.antt =====
-- A proof that is claimed after its expiry, as a tolerance for the clock allows.
use actenon_kernel.Prelude.{
  List, Option, String, arith, eq_iff, leb, refl, some, true, ℕ, ◌+◌, ◌∙◌, ◌≡◌, ◌≤◌,
}
use actenon_kernel.Json.{Json}
use actenon_kernel.Core.Refusal.{ok, refused, replay_error}
use actenon_kernel.Core.Time.{Time}
use actenon_kernel.Contracts.{ProtectedExecutionRequest}
use actenon_kernel.Sql.{
  IsKeyed, insert_or_ignore-IsKeyed, select, select-update_where, update_where,
  update_where-IsKeyed,
}
use actenon_kernel.Replay.Model.{ActionConsumptionClaim, ActionConsumptionState, row_key}
use actenon_kernel.Replay.Store.{
  claim_once, claimed_row, cleared, invalid_details, is_claim_of, mark_consumed, set_expired,
}
use actenon_kernel.Replay.Methods.{cleared-IsKeyed}
use actenon_kernel.Replay.Inspect.{current}
use actenon_kernel.Replay.Results.{claim_inserts, is_free, select-written, written}
use actenon_kernel.Replay.Spending.{mark_consumed_result}
use actenon_kernel.Replay.Service.{build_replay_key, claim_of, claim_request}

module _ (claim : ActionConsumptionClaim) (now : Time) (rows : List ActionConsumptionState)
    (counter observed : ℕ) (h : IsKeyed row_key rows) (le : observed ≤ counter)
    (free : is_free now (select row_key claim.replay_key rows) ≡ true)
    (late : claim.expires_at ≤ now) where
  abbrev lapsed : ActionConsumptionState
  lapsed = set_expired now (claimed_row claim now)

  abbrev left : List ActionConsumptionState
  left =
      update_where (is_claim_of claim.replay_key) (set_expired now)
        (written claim now rows counter observed h le)

  claim_late :
      claim_once claim now (current rows counter observed)
      ≡ (ok (some lapsed), current left (counter + 1 + 1) (counter + 1 + 1))
  claim_late =
      claim_inserts claim now rows counter observed h le free
      ∙ rw (select-written claim now rows counter observed h le free)
          (let over : leb claim.expires_at now ≡ true = ground arith in rw over refl)

  left-IsKeyed : IsKeyed row_key left
  left-IsKeyed =
      update_where-IsKeyed row_key (is_claim_of claim.replay_key) (set_expired now) (λ r. refl) _
        (insert_or_ignore-IsKeyed row_key (claimed_row claim now)
          (cleared claim.replay_key now rows) (cleared-IsKeyed claim.replay_key now rows h))

  select-left : select row_key claim.replay_key left ≡ some lapsed
  select-left =
      select-update_where row_key (is_claim_of claim.replay_key) (set_expired now) (λ r. refl)
        claim.replay_key _
      ∙ rw (select-written claim now rows counter observed h le free)
          (rw ((eq_iff claim.replay_key claim.replay_key).1 refl) refl)

  spend_late :
      (later : Time)
      → (mark_consumed claim.replay_key later (current left (counter + 1 + 1) (counter + 1 + 1))).0
        ≡ refused
            (replay_error "REPLAY_STATE_INVALID" (invalid_details claim.replay_key (some lapsed)))
  spend_late later =
      mark_consumed_result claim.replay_key later left (counter + 1 + 1) (counter + 1 + 1)
        left-IsKeyed (omega arith)
      ∙ rw select-left refl

-- A request whose proof has expired by its own clock, and whose key can be built and is free in
-- tables that are not behind what the store object has observed, is claimed as expired by
-- `claim_request`, and a `mark_consumed` of its key that is the next call, under any clock, refuses
-- with REPLAY_STATE_INVALID.
pub late_request_unspendable :
    (sha256_hex : Json → Option String) (request : ProtectedExecutionRequest) (key : String)
    (rows : List ActionConsumptionState) (counter observed : ℕ)
    → build_replay_key sha256_hex request.intent request.pccb ≡ some key
    → IsKeyed row_key rows
    → observed ≤ counter
    → is_free request.context.now (select row_key key rows) ≡ true
    → request.pccb.expires_at ≤ request.context.now
    → let shown =
        set_expired request.context.now (claimed_row (claim_of request key) request.context.now) in
      let (answer, after) = claim_request sha256_hex request (current rows counter observed) in
      (answer ≡ ok (some shown))
      × ((later : Time)
          → (mark_consumed key later after).0
            ≡ refused (replay_error "REPLAY_STATE_INVALID" (invalid_details key (some shown))))
unfolding claim_request
late_request_unspendable sha256_hex request key rows counter observed hashed h le free late =
    rw hashed (
      rw
        (claim_late (claim_of request key) request.context.now rows counter observed h le free late)
        (
          refl,
          spend_late (claim_of request key) request.context.now rows counter observed h le free
              late,
        ))
