-- ===== src/Replay/Moves.antt =====
-- What may happen to the row of one key: the state machine of a single-use record.
use actenon_kernel.Prelude.{
  Bool, Bool-cases, Option, String, arith, false, inl, inr, none, refl, some, true, ℕ, ◌∙◌, ◌≡◌,
  ◌≢◌, ◌≤◌,
}
use actenon_kernel.Core.Refusal.{Exec, Result, continue, ok, raised, refused, ◌>>=◌}
use actenon_kernel.Core.Time.{Time}
use actenon_kernel.Sql.{IsKeyed, undeleted, updated}
use actenon_kernel.Replay.Model.{
  ActionConsumptionClaim, ActionConsumptionState, StoreState, claimed, consumed, row_key,
  status_beq,
}
use actenon_kernel.Replay.Store.{claimed_row, select_row, set_consumed, set_expired, set_released}

pub data Move : Option ActionConsumptionState → Option ActionConsumptionState → Type 0 where
  claim_row : (c : ActionConsumptionClaim) (now : Time) → Move none (some (claimed_row c now))
  consume_row :
      (r : ActionConsumptionState) (now : Time)
      → r.status ≡ claimed
      → Move (some r) (some (set_consumed now r))
  release_row :
      (r : ActionConsumptionState) (now : Time) (reason : String)
      → r.status ≡ claimed
      → Move (some r) (some (set_released now reason r))
  expire_row :
      (r : ActionConsumptionState) (now : Time)
      → r.status ≡ claimed
      → Move (some r) (some (set_expired now r))
  delete_row :
      (r : ActionConsumptionState) → r.status ≢ claimed → r.status ≢ consumed → Move (some r) none

pub data Evolves (o : Option ActionConsumptionState) : Option ActionConsumptionState → Type 0 where
  stay : Evolves o o
  move : {p q : Option ActionConsumptionState} → Evolves o p → Move p q → Evolves o q

pub Evolves-trans :
    {o p q : Option ActionConsumptionState} → Evolves o p → Evolves p q → Evolves o q
Evolves-trans a stay = a
Evolves-trans a (move b m) = move (Evolves-trans a b) m

pub Evolves-eq : {o p q : Option ActionConsumptionState} → Evolves o p → p ≡ q → Evolves o q
Evolves-eq {o} a e = rw e at a

abbrev pub is_consumed : Option ActionConsumptionState → Bool
is_consumed none = false
is_consumed (some r) = status_beq r.status consumed

Move-consumed : {o p : Option ActionConsumptionState} → Move o p → is_consumed o ≡ true → p ≡ o
Move-consumed (claim_row c now) h = cc
Move-consumed (consume_row r now s) h = ground arith
Move-consumed (release_row r now reason s) h = ground arith
Move-consumed (expire_row r now s) h = ground arith
Move-consumed (delete_row r n m) h = absurd (m (ground arith))

-- A consumed record never changes again.
pub Evolves-consumed :
    {o p : Option ActionConsumptionState} → Evolves o p → is_consumed o ≡ true → p ≡ o
Evolves-consumed stay h = refl
Evolves-consumed (move a m) h = let e = Evolves-consumed a h in Move-consumed m (rw e h) ∙ e

module _ (p : ActionConsumptionState → Bool) where
  -- one update that applies only to claims, as a move
  pub Evolves-updated :
      (f : ActionConsumptionState → ActionConsumptionState)
      → ((r : ActionConsumptionState) → p r ≡ true → Move (some r) (some (f r)))
      → (o : Option ActionConsumptionState) → Evolves o (updated p f o)
  Evolves-updated f m none = stay
  Evolves-updated f m (some r) = elim (Bool-cases (p r)) [
    | inl e ↦ rw e (move stay (m r e))
    | inr e ↦ rw e stay
  ]

  pub Evolves-undeleted :
      ((r : ActionConsumptionState) → p r ≡ true → (r.status ≢ claimed) × (r.status ≢ consumed))
      → (o : Option ActionConsumptionState) → Evolves o (undeleted p o)
  Evolves-undeleted m none = stay
  Evolves-undeleted m (some r) = elim (Bool-cases (p r)) [
    | inl e ↦ rw e (move stay (delete_row r (m r e).0 (m r e).1))
    | inr e ↦ rw e stay
  ]

-- The counter never goes down, and the store object stays within it.
abbrev pub CountsUp : StoreState → StoreState → Type 0
CountsUp s t =
    (c : ℕ)
    → s.mutation_counter ≡ some c
    → s.last_observed_counter ≤ c
    → (d : ℕ) × (t.mutation_counter ≡ some d) × (c ≤ d) × (t.last_observed_counter ≤ d)

-- What a call does to the tables: the key stays a primary key, each record evolves, and the
-- counter goes up.
pub record Acts (s t : StoreState) : Type 0 where
  pub keyed : IsKeyed row_key s.action_consumption → IsKeyed row_key t.action_consumption
  pub evolves :
      IsKeyed row_key s.action_consumption
      → (k : String) → Evolves (select_row k s) (select_row k t)
  pub counts : CountsUp s t

pub Acts-refl : (s : StoreState) → Acts s s
Acts-refl s = record {
  keyed = λ h. h;
  evolves = λ h k. stay;
  counts = λ c e le. (c, e, omega arith, le);
}

pub Acts-trans : {s t u : StoreState} → Acts s t → Acts t u → Acts s u
Acts-trans a b = record {
  keyed = λ h. b.keyed (a.keyed h);
  evolves = λ h k. Evolves-trans (a.evolves h k) (b.evolves (a.keyed h) k);
  counts = λ c e le.
      let (d, e', up, le') = a.counts c e le in
      let (f, e'', up', le'') = b.counts d e' le' in (f, e'', omega arith, le'');
}

pub Acts-bind :
    {A : Type 0} {B : Type 0} (m : Exec StoreState A) (f : A → Exec StoreState B) (s : StoreState)
    → Acts s (m s).1
    → ((a : A) (t : StoreState) → Acts t (f a t).1)
    → Acts s ((m >>= f) s).1
unfolding ◌>>=◌
Acts-bind {A} m f s h k = go (m s).0 (m s).1 h
  where
    go : (r : Result A) (t : StoreState) → Acts s t → Acts s (continue r f t).1
    go (ok a) t h = Acts-trans h (k a t)
    go (refused e) t h = h
    go raised t h = h
