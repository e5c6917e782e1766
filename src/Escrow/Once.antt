-- ===== src/Escrow/Once.antt =====
-- Schedules of escrow calls, for either store (actenon/escrow/memory.py, actenon/escrow/sqlite.py).
use actenon_kernel.Prelude.{
  Bool, Bool-cases, List, Option, String, [], arith, count, false, inl, inr, nat_eq, none, refl,
  some, string_eq, true, ◌&&◌, ◌==◌, ◌||◌, ◌∷◌, ◌≡◌, ◌≤◌,
}
use actenon_kernel.Core.Refusal.{Result, is_ok}
use actenon_kernel.Core.Time.{Time}
use actenon_kernel.Escrow.Model.{EscrowRecord, Issue, Presentation, consumed, revoked, state_beq}
use actenon_kernel.Escrow.Sqlite.{Row}
use actenon_kernel.Escrow.Memory
use actenon_kernel.Escrow.Sqlite

-- A call of a mutating method, with the system time that the SQLite store reads.
pub data Call : Type 0 where
  issue_call : Time → Issue → Call
  consume_call : Presentation → Call
  revoke_call : Time → String → String → Call

-- Used up: consumed, or revoked (a revocation also overwrites a consumption).
abbrev pub is_spent : Option EscrowRecord → Bool
is_spent none = false
is_spent (some r) = state_beq r.state consumed || state_beq r.state revoked

abbrev outcome : {S : Type 0} → Result EscrowRecord × S → Bool × S
outcome (r, s) = (is_ok r, s)

unfoldable pub in_memory : Call → Memory.Records → Bool × Memory.Records
in_memory (issue_call clock i) s = outcome (Memory.issue i s)
in_memory (consume_call p) s = outcome (Memory.consume p s)
in_memory (revoke_call clock id reason) s = outcome (Memory.revoke id reason s)

unfoldable pub in_sqlite : Call → List Row → Bool × List Row
in_sqlite (issue_call clock i) s = outcome (Sqlite.issue clock i s)
in_sqlite (consume_call p) s = outcome (Sqlite.consume p s)
in_sqlite (revoke_call clock id reason) s = outcome (Sqlite.revoke clock id reason s)

-- `consume` of this id returned a record.
abbrev pub consumes : String → Call × Bool → Bool
consumes id (consume_call p, returned) = returned && p.escrow_id == id
consumes id (issue_call clock i, returned) = false
consumes id (revoke_call clock j reason, returned) = false

-- The calls of a schedule, each with whether it returned.
unfoldable pub run {ℓ} : {S : Type ℓ} → (Call → S → Bool × S) → List Call → S → List (Call × Bool)
run perform [] s = []
run perform (c ∷ rest) s = let (returned, s') = perform c s in (c, returned) ∷ run perform rest s'

-- A store in which a consumption spends the record, and a spent record stays spent and is refused.
pub record Spends {S : Type 0} (perform : Call → S → Bool × S)
    (view : String → S → Option EscrowRecord) (Inv : S → Type 0) : Type 0 where
  pub keeps : (c : Call) (s : S) → Inv s → Inv (perform c s).1
  pub stays :
      (id : String) (c : Call) (s : S)
      → Inv s
      → is_spent (view id s) ≡ true
      → is_spent (view id (perform c s).1) ≡ true
  pub takes :
      (id : String) (c : Call) (s : S)
      → Inv s
      → consumes id (c, (perform c s).0) ≡ true
      → (is_spent (view id s) ≡ false) × (is_spent (view id (perform c s).1) ≡ true)

module _ {S : Type 0} (perform : Call → S → Bool × S) (view : String → S → Option EscrowRecord)
    (Inv : S → Type 0) (spends : Spends perform view Inv) (id : String) where
  consumed_never :
      (calls : List Call) (s : S)
      → Inv s
      → is_spent (view id s) ≡ true
      → count (consumes id) (run perform calls s) ≡ 0
  unfolding run
  consumed_never [] s inv h = refl
  consumed_never (c ∷ rest) s inv h = elim (Bool-cases (consumes id (c, (perform c s).0))) [
    | inl e ↦ absurd (cc (h, (spends.takes id c s inv e).0))
    | inr e ↦
        rw e
          (consumed_never rest (perform c s).1 (spends.keeps c s inv) (spends.stays id c s inv h))
  ]

  pub consumed_at_most_once :
      (calls : List Call) (s : S) → Inv s → count (consumes id) (run perform calls s) ≤ 1
  unfolding run
  consumed_at_most_once [] s inv = omega arith
  consumed_at_most_once (c ∷ rest) s inv = elim (Bool-cases (consumes id (c, (perform c s).0))) [
    | inl e ↦ rw e (
        omega (
          arith,
          consumed_never rest (perform c s).1 (spends.keeps c s inv) (spends.takes id c s inv e).1,
        ))
    | inr e ↦ rw e (consumed_at_most_once rest (perform c s).1 (spends.keeps c s inv))
  ]
