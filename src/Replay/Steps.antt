-- ===== src/Replay/Steps.antt =====
-- The single transactions of the store, as moves of each record.
use actenon_kernel.Prelude.{
  Bool, Bool-cases, List, Option, Option-cases, String, arith, inl, inr, leb, ltb, none, refl, some,
  suc, true, zero, ℕ, ◌&&◌, ◌+◌, ◌≡◌,
}
use actenon_kernel.Core.Refusal.{ok}
use actenon_kernel.Core.Time.{Time}
use actenon_kernel.Sql.{IsKeyed, select, select-update_where, update_where, update_where-IsKeyed}
use actenon_kernel.Replay.Model.{ActionConsumptionState, StoreState, claimed, row_key, status_beq}
use actenon_kernel.Replay.Store.{
  advance, assert_store_monotonic, commit, inspect, inspect_fuel, is_claim_of, observe, select_row,
  set_expired,
}
use actenon_kernel.Replay.Moves.{
  Acts, Acts-bind, Acts-refl, Evolves, Evolves-updated, Move, expire_row, stay,
}

observe-Acts : (o : Option ℕ) (s : StoreState) → s.mutation_counter ≡ o → Acts s (observe o s).1
unfolding observe
observe-Acts none s e = Acts-refl s
observe-Acts (some c) s e = elim (Bool-cases (ltb c s.last_observed_counter)) [
  | inl l ↦ rw l (Acts-refl s)
  | inr l ↦ rw l (record {
    keyed = λ h. h;
    evolves = λ h k. stay;
    counts = λ d e' le. (d, e', omega arith, ground arith);
  })
]

pub assert-Acts : (s : StoreState) → Acts s (assert_store_monotonic s).1
unfolding assert_store_monotonic
assert-Acts s = observe-Acts s.mutation_counter s refl

module _ (rows : List ActionConsumptionState) (s : StoreState)
    (keyed : IsKeyed row_key s.action_consumption → IsKeyed row_key rows)
    (evolves : IsKeyed row_key s.action_consumption
      → (k : String) → Evolves (select_row k s) (select row_key k rows)) where
  advance-Acts : (o : Option ℕ) → s.mutation_counter ≡ o → Acts s (advance o rows s).1
  unfolding advance
  advance-Acts none e = Acts-refl s
  advance-Acts (some c) e = elim (Bool-cases (leb (c + 1) s.last_observed_counter)) [
    | inl l ↦ rw l (Acts-refl s)
    | inr l ↦ rw l (record {
      keyed = keyed;
      evolves = evolves;
      counts = λ d e' le. (c + 1, refl, ground arith, omega arith);
    })
  ]

  -- A commit acts as the rows that it writes.
  pub commit-Acts : Acts s (commit rows s).1
  unfolding commit
  commit-Acts = advance-Acts s.mutation_counter refl

-- A committed update of claims.
pub update-Acts :
    (p : ActionConsumptionState → Bool) (f : ActionConsumptionState → ActionConsumptionState)
    → ((r : ActionConsumptionState) → row_key (f r) ≡ row_key r)
    → ((r : ActionConsumptionState) → p r ≡ true → Move (some r) (some (f r)))
    → (s : StoreState) → Acts s (commit (update_where p f s.action_consumption) s).1
update-Acts p f same m s =
    commit-Acts (update_where p f s.action_consumption) s
      (update_where-IsKeyed row_key p f same s.action_consumption)
      (λ h k.
        rw (select-update_where row_key p f same k s.action_consumption)
          (Evolves-updated p f m (select_row k s)))

pub claim_of-claimed :
    (key : String) (r : ActionConsumptionState) → is_claim_of key r ≡ true → r.status ≡ claimed
claim_of-claimed key r h = ground arith

pub expire_one-Acts :
    (key : String) (now : Time) (s : StoreState)
    → Acts s (commit (update_where (is_claim_of key) (set_expired now) s.action_consumption) s).1
expire_one-Acts key now =
    update-Acts (is_claim_of key) (set_expired now) (λ r. refl)
      (λ r h. expire_row r now (claim_of-claimed key r h))

inspect_fuel-Acts :
    (fuel : ℕ) (key : String) (now : Time) (s : StoreState) → Acts s (inspect_fuel fuel key now s).1
unfolding inspect_fuel
inspect_fuel-Acts zero key now s = Acts-refl s
inspect_fuel-Acts (suc fuel) key now s = Acts-bind assert_store_monotonic _ s (assert-Acts s) λ _ t.
    elim (Option-cases (select_row key t)) [
      | inl e ↦ rw e (Acts-refl t)
      | inr (r, e) ↦ rw e (elim (Bool-cases (status_beq r.status claimed && leb r.expires_at now)) [
        | inl l ↦ rw l (
            Acts-bind
              (commit (update_where (is_claim_of key) (set_expired now) t.action_consumption))
              (λ _. inspect_fuel fuel key now) t (expire_one-Acts key now t)
              (λ _. inspect_fuel-Acts fuel key now))
        | inr l ↦ rw l (Acts-refl t)
      ])
    ]

pub inspect-Acts : (key : String) (now : Time) (s : StoreState) → Acts s (inspect key now s).1
unfolding inspect
inspect-Acts = inspect_fuel-Acts 2

-- The check reads and the commit writes exactly the rows it is given.
observe-rows :
    (o : Option ℕ) (s : StoreState) → (observe o s).1.action_consumption ≡ s.action_consumption
unfolding observe
observe-rows none s = refl
observe-rows (some c) s = ground arith

pub assert-rows :
    (s : StoreState) → (assert_store_monotonic s).1.action_consumption ≡ s.action_consumption
unfolding assert_store_monotonic
assert-rows s = observe-rows s.mutation_counter s

advance-rows :
    (o : Option ℕ) (rows : List ActionConsumptionState) (s : StoreState) {u : Unit {0}}
    → (advance o rows s).0 ≡ ok u
    → (advance o rows s).1.action_consumption ≡ rows
unfolding advance
advance-rows none rows s h = cc
advance-rows (some c) rows s h = elim (Bool-cases (leb (c + 1) s.last_observed_counter)) [
  | inl l ↦ absurd (cc (rw l at h))
  | inr l ↦ rw l
]

pub commit-rows :
    (rows : List ActionConsumptionState) (s : StoreState) {u : Unit {0}}
    → (commit rows s).0 ≡ ok u
    → (commit rows s).1.action_consumption ≡ rows
unfolding commit
commit-rows rows s = advance-rows s.mutation_counter rows s
