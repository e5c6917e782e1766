-- ===== src/Replay/World.antt =====
-- Several store objects (threads, workers, machines) over one database: each call runs against
-- the shared tables with the counter that its own store object has observed.
use actenon_kernel.Prelude.{
  Bool, List, Option, String, [], false, if◌then◌else◌, nat_eq, refl, string_eq, ℕ, ◌&&◌, ◌==◌, ◌∷◌,
  ◌≡◌,
}
use actenon_kernel.Core.Refusal.{Result, is_ok, ok, raised, refused}
use actenon_kernel.Core.Time.{Time}
use actenon_kernel.Sql.{IsKeyed, select}
use actenon_kernel.Replay.Model.{
  ActionConsumptionClaim, ActionConsumptionState, Database, StoreState, row_key,
}
use actenon_kernel.Replay.Store.{claim_once, inspect, mark_consumed, purge_expired, release_claim}
use actenon_kernel.Replay.Moves.{Acts}
use actenon_kernel.Replay.Methods.{
  claim_once-Acts, mark_consumed-Acts, purge_expired-Acts, release_claim-Acts,
}
use actenon_kernel.Replay.Steps.{inspect-Acts}

pub record World : Type 0 where
  pub tables : Database
  pub observed : ℕ → ℕ

-- A call of a public method. `now` is the caller's clock: nothing orders the clocks.
pub data Call : Type 0 where
  claim_once_call : ActionConsumptionClaim → Time → Call
  mark_consumed_call : String → Time → Call
  release_claim_call : String → Time → String → Call
  inspect_call : String → Time → Call
  purge_expired_call : Time → Call

abbrev pub as_state : World → ℕ → StoreState
as_state w client = record { database = w.tables; last_observed_counter = w.observed client }

-- what a call answers, less the value that it returns
abbrev pub answered : {A : Type 0} → Result A → Result (Unit {0})
answered (ok _) = ok tt
answered (refused exc) = refused exc
answered raised = raised

-- the answer of the call, and the state that it left
abbrev outcome : {A : Type 0} → Result A × StoreState → Result (Unit {0}) × StoreState
outcome (r, s) = (answered r, s)

unfoldable pub perform : Call → StoreState → Result (Unit {0}) × StoreState
perform (claim_once_call claim now) s = outcome (claim_once claim now s)
perform (mark_consumed_call key now) s = outcome (mark_consumed key now s)
perform (release_claim_call key now reason) s = outcome (release_claim key now reason s)
perform (inspect_call key now) s = outcome (inspect key now s)
perform (purge_expired_call now) s = outcome (purge_expired now s)

unfoldable pub call_by : ℕ → Call → World → Bool × World
unfolding perform
call_by client c w =
    let (answer, s) = perform c (as_state w client) in
    (
      is_ok answer,
      record {
        tables = s.database;
        observed = λ i. if i == client then s.last_observed_counter else w.observed i;
      },
    )

pub is_ok-answered : {A : Type 0} (r : Result A) → is_ok r ≡ is_ok (answered r)
is_ok-answered (ok _) = refl
is_ok-answered (refused _) = refl
is_ok-answered raised = refl

-- A schedule of calls, and for each whether it returned.
pub record Event : Type 0 where
  pub client : ℕ
  pub call : Call
  pub returned : Bool

unfoldable pub run : List (ℕ × Call) → World → List Event × World
unfolding call_by
run [] w = ([], w)
run ((i, c) ∷ rest) w =
    let (done, w') = call_by i c w in
    let (events, last) = run rest w' in
    (record { client = i; call = c; returned = done } ∷ events, last)

-- `mark_consumed(key)` returned: the caller goes on to run the handler.
abbrev pub spends : String → Event → Bool
spends key e = elim e.call [ mark_consumed_call k now ↦ e.returned && k == key | _ ↦ false ]

pub perform-Acts : (c : Call) (s : StoreState) → Acts s (perform c s).1
unfolding perform
perform-Acts (claim_once_call claim now) s = claim_once-Acts claim now s
perform-Acts (mark_consumed_call key now) s = mark_consumed-Acts key now s
perform-Acts (release_claim_call key now reason) s = release_claim-Acts key now reason s
perform-Acts (inspect_call key now) s = inspect-Acts key now s
perform-Acts (purge_expired_call now) s = purge_expired-Acts now s

abbrev pub HasPrimaryKey : World → Type 0
HasPrimaryKey w = IsKeyed row_key w.tables.action_consumption

abbrev pub record_of : String → World → Option ActionConsumptionState
record_of key w = select row_key key w.tables.action_consumption
