-- ===== src/Replay/SingleUse.antt =====
-- How often `mark_consumed` of one key returns (actenon/replay/dbapi.py).
use actenon_kernel.Prelude.{
  Bool-cases, List, String, [], arith, count, eq_iff, false, inl, inr, nat_eq, refl, string_eq,
  true, ℕ, ◌==◌, ◌∙◌, ◌∷◌, ◌≡◌, ◌≤◌,
}
use actenon_kernel.Core.Refusal.{bind_fails, is_ok, ok_of_bind, refuse, replay_error, ◌>>◌}
use actenon_kernel.Core.Time.{Time}
use actenon_kernel.Sql.{
  IsKeyed, rowcount, rowcount-eq-matches, select, select-update_where, update_where,
  update_where-IsKeyed,
}
use actenon_kernel.Replay.Model.{ActionConsumptionState, StoreState, row_key}
use actenon_kernel.Replay.Store.{
  assert_store_monotonic, commit, inspect, invalid_details, is_claim_of, mark_consumed, select_row,
  set_consumed,
}
use actenon_kernel.Replay.Moves.{Evolves-consumed, is_consumed}
use actenon_kernel.Replay.Steps.{assert-rows, commit-rows, inspect-Acts}
use actenon_kernel.Replay.World.{
  Call, Event, HasPrimaryKey, World, as_state, call_by, is_ok-answered, mark_consumed_call, perform,
  perform-Acts, record_of, run, spends,
}

claim_of-key :
    (key : String) (r : ActionConsumptionState) → is_claim_of key r ≡ true → row_key r ≡ key
claim_of-key key r h = ground (arith, eq_iff (row_key r) key)

no_claim_left :
    (key : String) (rows : List ActionConsumptionState)
    → IsKeyed row_key rows
    → is_consumed (select row_key key rows) ≡ true
    → (rowcount (is_claim_of key) rows == 1) ≡ false
no_claim_left key rows h c =
    rw (rowcount-eq-matches row_key (is_claim_of key) key rows (claim_of-key key) h) (ground arith)

-- A consumed record is not spent again.
pub mark_consumed_again :
    (key : String) (now : Time) (s : StoreState)
    → IsKeyed row_key s.action_consumption
    → is_consumed (select_row key s) ≡ true
    → is_ok (mark_consumed key now s).0 ≡ false
unfolding mark_consumed assert_store_monotonic inspect refuse
mark_consumed_again key now s h c = bind_fails assert_store_monotonic _ s λ _ _.
    rw (assert-rows s, no_claim_left key s.action_consumption h c)
      (bind_fails (inspect key now)
        (λ existing. refuse (replay_error "REPLAY_STATE_INVALID" (invalid_details key existing)))
        (assert_store_monotonic s).1 (λ _ _. refl))

claim_found :
    (key : String) (now : Time) (rows : List ActionConsumptionState)
    → IsKeyed row_key rows
    → (rowcount (is_claim_of key) rows == 1) ≡ true
    → is_consumed (select row_key key (update_where (is_claim_of key) (set_consumed now) rows))
      ≡ true
claim_found key now rows h one =
    rw (select-update_where row_key (is_claim_of key) (set_consumed now) (λ r. refl) key rows)
      (ground (arith, rowcount-eq-matches row_key (is_claim_of key) key rows (claim_of-key key) h))

-- what follows the check of the counter
spend_one :
    (key : String) (now : Time) (t : StoreState)
    → IsKeyed row_key t.action_consumption
    → (rowcount (is_claim_of key) t.action_consumption == 1) ≡ true
    → let spend =
        commit (update_where (is_claim_of key) (set_consumed now) t.action_consumption)
        >> inspect key now in
      is_ok (spend t).0 ≡ true → is_consumed (select_row key (spend t).1) ≡ true
spend_one key now t h one c =
    let rows = update_where (is_claim_of key) (set_consumed now) t.action_consumption in
    let (_, done, _, same) = ok_of_bind (commit rows) (λ _. inspect key now) t c in
    let after = (commit rows t).1 in
    let consumed_there : is_consumed (select_row key after) ≡ true =
      rw (commit-rows rows t done) (claim_found key now t.action_consumption h one) in
    let keyed : IsKeyed row_key after.action_consumption = rw (commit-rows rows t done) (
      update_where-IsKeyed row_key (is_claim_of key) (set_consumed now) (λ r. refl)
        t.action_consumption h) in
    rw same (
      rw (Evolves-consumed ((inspect-Acts key now after).evolves keyed key) consumed_there)
        consumed_there)

-- A spending that returns leaves the record consumed.
pub mark_consumed-consumed :
    (key : String) (now : Time) (s : StoreState)
    → IsKeyed row_key s.action_consumption
    → is_ok (mark_consumed key now s).0 ≡ true
    → is_consumed (select_row key (mark_consumed key now s).1) ≡ true
unfolding mark_consumed assert_store_monotonic inspect refuse
mark_consumed-consumed key now s h c =
    let (_, _, done, same) = ok_of_bind assert_store_monotonic _ s c in
    let t = (assert_store_monotonic s).1 in
    rw same (elim (Bool-cases (rowcount (is_claim_of key) t.action_consumption == 1)) [
      | inl one ↦ rw one (spend_one key now t (rw (assert-rows s) h) one (rw one at done))
      | inr other ↦ absurd (
          cc (
            rw other at done,
            bind_fails (inspect key now)
                (λ existing.
                  refuse (replay_error "REPLAY_STATE_INVALID" (invalid_details key existing)))
                t (λ _ _. refl),
          ))
    ])

-- What a call does to the world: the primary key stays, and a consumed record stays.
call_by-keyed : (i : ℕ) (c : Call) (w : World) → HasPrimaryKey w → HasPrimaryKey (call_by i c w).1
unfolding call_by
call_by-keyed i c w h = (perform-Acts c (as_state w i)).keyed h

call_by-consumed :
    (key : String) (i : ℕ) (c : Call) (w : World)
    → HasPrimaryKey w
    → is_consumed (record_of key w) ≡ true
    → is_consumed (record_of key (call_by i c w).1) ≡ true
unfolding call_by
call_by-consumed key i c w h done =
    rw (Evolves-consumed ((perform-Acts c (as_state w i)).evolves h key) done) done

abbrev event : ℕ → Call → World → Event
event i c w = record { client = i; call = c; returned = (call_by i c w).0 }

pub fresh :
    (key : String) (now : Time) (s : StoreState)
    → IsKeyed row_key s.action_consumption
    → is_ok (mark_consumed key now s).0 ≡ true
    → is_consumed (select_row key s) ≡ false
fresh key now s h done = elim (Bool-cases (is_consumed (select_row key s))) [
  | inl c ↦ absurd (cc (mark_consumed_again key now s h c))
  | inr c ↦ c
]

-- a call that spends the key leaves it consumed, and finds it not consumed
event-consumed :
    (key : String) (i : ℕ) (c : Call) (w : World)
    → HasPrimaryKey w
    → spends key (event i c w) ≡ true
    → (is_consumed (record_of key w) ≡ false)
      × (is_consumed (record_of key (call_by i c w).1) ≡ true)
unfolding call_by perform
event-consumed key i (mark_consumed_call k now) w h e =
    let s = as_state w i in
    let returned : is_ok (mark_consumed k now s).0 ≡ true =
      is_ok-answered (mark_consumed k now s).0 ∙ ground arith in
    let same : k ≡ key = (eq_iff k key).0 (ground arith) in
    rw (← same) (fresh k now s h returned, mark_consumed-consumed k now s h returned)
event-consumed key i _ w h e = cc

-- Once consumed, a key is never spent again.
spent_never :
    (key : String) (calls : List (ℕ × Call)) (w : World)
    → HasPrimaryKey w
    → is_consumed (record_of key w) ≡ true
    → count (spends key) (run calls w).0 ≡ 0
unfolding run
spent_never key [] w h done = refl
spent_never key ((i, c) ∷ rest) w h done = elim (Bool-cases (spends key (event i c w))) [
  | inl e ↦ absurd (cc (done, (event-consumed key i c w h e).0))
  | inr e ↦ rw e (
      spent_never key rest (call_by i c w).1 (call_by-keyed i c w h)
        (call_by-consumed key i c w h done))
]

-- Whatever the schedule of method calls by any number of store objects over one database, with any
-- clocks, at most one `mark_consumed` of a replay key returns, if the table has its primary key.
pub spent_at_most_once :
    (key : String) (calls : List (ℕ × Call)) (w : World)
    → HasPrimaryKey w
    → count (spends key) (run calls w).0 ≤ 1
unfolding run
spent_at_most_once key [] w h = omega arith
spent_at_most_once key ((i, c) ∷ rest) w h = elim (Bool-cases (spends key (event i c w))) [
  | inl e ↦ rw e (
      omega (
        arith,
        spent_never key rest (call_by i c w).1 (call_by-keyed i c w h)
            (event-consumed key i c w h e).1,
      ))
  | inr e ↦ rw e (spent_at_most_once key rest (call_by i c w).1 (call_by-keyed i c w h))
]
