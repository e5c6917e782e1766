-- ===== src/Idempotency/First.antt =====
-- Schedules of `IdempotencyStore.record` calls (actenon/idempotency.py).
use actenon_kernel.Prelude.{
  Bool, Bool-cases, List, Option, Option-cases, String, [], arith, eq_iff, false, if◌then◌else◌,
  inl, inr, nat_eq, none, refl, some, string_eq, ◌==◌, ◌∙◌, ◌∷◌, ◌≡◌,
}
use actenon_kernel.Core.Refusal.{Result, is_ok, ok}
use actenon_kernel.Dict.{insert, lookup, lookup-insert}
use actenon_kernel.Idempotency.Store.{
  RecordedResult, Recording, Records, entry_of_call, record_found, record_result,
}

-- A schedule of calls of `record`, with what each answered, and the store that they leave.
unfoldable pub run : List Recording → Records → List (Recording × Result (Unit {0})) × Records
run [] records = ([], records)
run (c ∷ rest) records =
    let (answer, after) = record_result c records in
    let (answers, last) = run rest after in ((c, answer) ∷ answers, last)

-- what is there, or else the first call for the operation
abbrev pub first_result : String → Option RecordedResult → List Recording → Option RecordedResult
first_result operation_id (some e) calls = some e
first_result operation_id none [] = none
first_result operation_id none (c ∷ rest) =
    if c.operation_id == operation_id
    then some (entry_of_call c)
    else first_result operation_id none rest

-- a call for another operation, or for one that has a result, is not the first
not_first :
    (operation_id : String) (c : Recording) (rest : List Recording) (o : Option RecordedResult)
    → (o ≡ none → (c.operation_id == operation_id) ≡ false)
    → first_result operation_id o rest ≡ first_result operation_id o (c ∷ rest)
not_first operation_id c rest none other = rw (other refl) refl
not_first operation_id c rest (some e) other = refl

module _ (c : Recording) (records : Records) where
  record_fresh :
      lookup c.operation_id records ≡ none
      → record_result c records ≡ (ok tt, insert c.operation_id (entry_of_call c) records)
  unfolding record_result record_found
  record_fresh e = rw e refl

  record_met :
      (there : RecordedResult)
      → lookup c.operation_id records ≡ some there
      → (record_result c records).1 ≡ records
  unfolding record_result record_found
  record_met there e = rw e (ground arith)

-- one call, seen from any operation
lookup-record :
    (operation_id : String) (c : Recording) (rest : List Recording) (records : Records)
    → first_result operation_id (lookup operation_id (record_result c records).1) rest
      ≡ first_result operation_id (lookup operation_id records) (c ∷ rest)
lookup-record operation_id c rest records = elim (Option-cases (lookup c.operation_id records)) [
  | inl e ↦
      rw
        (
          record_fresh c records e,
          lookup-insert c.operation_id operation_id (entry_of_call c) records,
        )
        (elim (Bool-cases (c.operation_id == operation_id)) [
          | inl same ↦
              rw (same, rw ((eq_iff c.operation_id operation_id).0 same) at e) (rw same refl)
          | inr other ↦ rw other (not_first operation_id c rest _ (λ _. other))
        ])
  | inr (there, e) ↦ rw (record_met c records there e) (
      not_first operation_id c rest (lookup operation_id records) (λ absent.
        elim (Bool-cases (c.operation_id == operation_id)) [
          | inl same ↦ absurd (cc (e, absent, (eq_iff c.operation_id operation_id).0 same))
          | inr other ↦ other
        ]))
]

-- After any schedule of `record` calls the store holds for each operation the result that was there
-- before, or else that of the first call for the operation.
pub first_result_wins :
    (operation_id : String) (calls : List Recording) (records : Records)
    → lookup operation_id (run calls records).1
      ≡ first_result operation_id (lookup operation_id records) calls
unfolding run
first_result_wins operation_id [] records = elim (Option-cases (lookup operation_id records)) [
  | inl e ↦ rw e refl
  | inr (there, e) ↦ rw e refl
]
first_result_wins operation_id (c ∷ rest) records =
    first_result_wins operation_id rest (record_result c records).1
    ∙ lookup-record operation_id c rest records

-- whether the result that is there has this hash
abbrev pub has_hash : Option RecordedResult → String → Bool
has_hash none action_hash = false
has_hash (some e) action_hash = e.action_hash == action_hash

-- `record` returns exactly when the result that the operation then has carries the hash of the
-- call, and raises otherwise.
pub record_accepts_same :
    (c : Recording) (records : Records)
    → is_ok (record_result c records).0
      ≡ has_hash
          (first_result c.operation_id (lookup c.operation_id records) (c ∷ []))
          c.action_hash
unfolding record_result record_found
record_accepts_same c records = elim (Option-cases (lookup c.operation_id records)) [
  | inl e ↦
      rw e
        (ground (arith, eq_iff c.operation_id c.operation_id, eq_iff c.action_hash c.action_hash))
  | inr (there, e) ↦ rw e (ground arith)
]
