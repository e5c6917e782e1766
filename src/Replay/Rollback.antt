-- ===== src/Replay/Rollback.antt =====
-- The counter that tells a restored database from the one that a store object has seen.
use actenon_kernel.Prelude.{
  List, Option, [], arith, inl, inr, ltb, none, refl, some, true, ℕ, ◌<◌, ◌∷◌, ◌≡◌, ◌≤◌, ◌⊎◌,
}
use actenon_kernel.Json.{Fields, end, field, int, pos}
use actenon_kernel.Core.Refusal.{Exec, Refusal, refused, replay_error, ◌>>=◌}
use actenon_kernel.Replay.Model.{Database, StoreState}
use actenon_kernel.Replay.Store.{
  assert_store_monotonic, claim_once, counter_or_zero, inspect, mark_consumed, observe, open_store,
  purge_expired, release_claim,
}
use actenon_kernel.Replay.World.{
  Call, World, as_state, call_by, claim_once_call, perform, perform-Acts, run,
}

-- The tables of an older backup, or with their metadata lost.
abbrev pub IsRolledBack : StoreState → Type 0
IsRolledBack s =
    (s.mutation_counter ≡ none)
    ⊎ ((c : ℕ) × (s.mutation_counter ≡ some c) × (c < s.last_observed_counter))

-- the counter that the tables have, and the one that was observed
abbrev pub counters_of : StoreState → Fields
counters_of s = elim s.mutation_counter [
  | none ↦ end
  | some counter ↦
      field "observed_counter" (int (pos counter))
        (field "last_observed_counter" (int (pos s.last_observed_counter)) end)
]

observe_refuses :
    (o : Option ℕ) (s : StoreState)
    → s.mutation_counter ≡ o
    → IsRolledBack s
    → observe o s ≡ (refused (replay_error "REPLAY_STORE_ROLLBACK_DETECTED" (counters_of s)), s)
unfolding observe
observe_refuses none s e h = rw e refl
observe_refuses (some c) s e (inl lost) = absurd (cc (lost, e))
observe_refuses (some c) s e (inr (d, found, less)) =
    let behind : ltb c s.last_observed_counter ≡ true = ground (arith, e, found, less) in
    rw (e, behind) refl

-- a chain that begins with a refusal
first_refuses :
    {A B : Type 0} (m : Exec StoreState A) (f : A → Exec StoreState B) (s : StoreState)
    (exc : Refusal)
    → m s ≡ (refused exc, s)
    → (m >>= f) s ≡ (refused exc, s)
unfolding ◌>>=◌
first_refuses m f s exc h = rw h refl

-- Over tables whose mutation counter is missing or behind what a store object has observed, each of
-- its methods refuses with REPLAY_STORE_ROLLBACK_DETECTED, its details being the two counters if
-- there is one in the tables, and changes neither the tables nor the observed counter.
pub rolled_back_refused :
    (c : Call) (s : StoreState)
    → IsRolledBack s
    → perform c s ≡ (refused (replay_error "REPLAY_STORE_ROLLBACK_DETECTED" (counters_of s)), s)
unfolding perform claim_once mark_consumed release_claim inspect purge_expired
    assert_store_monotonic
rolled_back_refused (claim_once_call claim now) s h =
    rw (first_refuses assert_store_monotonic _ s _ (observe_refuses s.mutation_counter s refl h))
      refl
rolled_back_refused _ s h =
    rw (first_refuses assert_store_monotonic _ s _ (observe_refuses s.mutation_counter s refl h))
      refl

-- No store object has seen more than the tables hold.
pub record IsObserved (w : World) : Type 0 where
  pub counter : ℕ
  pub known : w.tables.mutation_counter ≡ some counter
  pub within : (i : ℕ) → w.observed i ≤ counter

call_by-IsObserved : (i : ℕ) (c : Call) (w : World) → IsObserved w → IsObserved (call_by i c w).1
unfolding call_by
call_by-IsObserved i c w h =
    let (d, known, up, le) =
      (perform-Acts c (as_state w i)).counts h.counter h.known (h.within i) in
    record { counter = d; known = known; within = λ j. ground (arith, h.within j) }

-- No schedule of calls takes a store object beyond the tables.
run-IsObserved : (calls : List (ℕ × Call)) (w : World) → IsObserved w → IsObserved (run calls w).1
unfolding run
run-IsObserved [] w h = h
run-IsObserved ((i, c) ∷ rest) w h =
    run-IsObserved rest (call_by i c w).1 (call_by-IsObserved i c w h)

-- the world in which every store object has just been opened over the tables
abbrev pub opened : Database → World
opened d = record {
  tables = (open_store d).database;
  observed = λ _. (open_store d).last_observed_counter;
}

-- After any number of store objects are opened over any database, with or without its metadata row,
-- no schedule of their calls makes the tables look rolled back to any of them.
pub opened_never-IsRolledBack :
    (d : Database) (calls : List (ℕ × Call)) (i : ℕ)
    → ¬ IsRolledBack (as_state (run calls (opened d)).1 i)
unfolding open_store
opened_never-IsRolledBack d calls i back =
    let start : IsObserved (opened d) = record {
      counter = counter_or_zero d.mutation_counter;
      known = refl;
      within = λ _. omega arith;
    } in
    let h = run-IsObserved calls (opened d) start in
    elim back [
      | inl lost ↦ ground (arith, h.known, lost)
      | inr (c, found, less) ↦ ground (arith, h.known, found, less, h.within i)
    ]
