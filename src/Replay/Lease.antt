-- ===== src/Replay/Lease.antt =====
-- How long a claim holds its key: SQL compares the timestamps as texts, and `Z` sorts after `.`.
use actenon_kernel.Prelude.{
  List, arith, nat_eq, some, string_eq, ℕ, ◌%◌, ◌/◌, ◌<◌, ◌==◌, ◌∙◌, ◌≡◌, ◌≤◌,
}
use actenon_kernel.Core.Refusal.{ok, refused, replay_error}
use actenon_kernel.Core.Time.{Time, text_leb-eq-leb, text_leb_early}
use actenon_kernel.Sql.{IsKeyed, select}
use actenon_kernel.Replay.Model.{ActionConsumptionClaim, ActionConsumptionState, claimed, row_key}
use actenon_kernel.Replay.Store.{claim_once, claimed_row, duplicate_details}
use actenon_kernel.Replay.Inspect.{current, seen}
use actenon_kernel.Replay.Results.{claim_once_result}

module _ (claim : ActionConsumptionClaim) (now : Time) (rows : List ActionConsumptionState)
    (counter observed : ℕ) (r : ActionConsumptionState) (h : IsKeyed row_key rows)
    (le : observed ≤ counter) (found : select row_key claim.replay_key rows ≡ some r)
    (live : r.status ≡ claimed) where
  -- While a claim has not expired and its expiry and the clock are both written with a fraction of
  -- a second, or both without, `claim_once` of its key refuses with DUPLICATE_REPLAY.
  pub live_claim_exclusive :
      ((r.expires_at % 1000000 == 0) ≡ (now % 1000000 == 0))
      → now < r.expires_at
      → (claim_once claim now (current rows counter observed)).0
        ≡ refused (replay_error "DUPLICATE_REPLAY" (duplicate_details claim (some r)))
  live_claim_exclusive shape early =
      claim_once_result claim now rows counter observed h le
      ∙ rw found (ground (arith, text_leb-eq-leb r.expires_at now shape))

  -- A live claim whose expiry has a fraction of a second is given to another caller before it
  -- expires, when the clock shows the whole second of the expiry: SQL compares the timestamps as
  -- texts.
  pub early_reclaim :
      now % 1000000 ≡ 0
      → r.expires_at / 1000000 ≡ now / 1000000
      → now < r.expires_at
      → (claim_once claim now (current rows counter observed)).0
        ≡ ok (seen now (some (claimed_row claim now)))
  early_reclaim whole second early =
      claim_once_result claim now rows counter observed h le
      ∙ rw found (ground (arith, text_leb_early r.expires_at now whole second early))
