-- ===== src/Escrow/Shows.antt =====
-- The rows of the SQLite store and the dict of the in-memory store, and single writes to both.
use actenon_kernel.Prelude.{
  Bool, Bool-cases, List, Option, Option-cases, String, arith, eq_iff, inl, inr, nat_eq, none, refl,
  some, string_eq, true, ◌==◌, ◌∙◌, ◌≡◌,
}
use actenon_kernel.Core.Refusal.{Result, ok}
use actenon_kernel.Dict.{Dict, insert, lookup, lookup-insert}
use actenon_kernel.Sql.{
  IsKeyed, insert_or_ignore, insert_or_ignore-IsKeyed, select, select-insert_or_ignore, select-key,
  select-update_where, update_where, update_where-IsKeyed,
}
use actenon_kernel.Escrow.Model.{EscrowRecord}
use actenon_kernel.Escrow.Sqlite.{Row, row_id}
use actenon_kernel.Escrow.Sqlite

abbrev pub entry_of : Option Row → Option EscrowRecord
entry_of none = none
entry_of (some r) = some r.entry

-- The rows and the dict hold the same records under the same keys.
pub record Shows (rows : List Row) (records : Dict EscrowRecord) : Type 0 where
  pub keyed : IsKeyed row_id rows
  pub same : (k : String) → entry_of (select row_id k rows) ≡ lookup k records

-- the same answer, and states that again show one another
pub record Agrees (a : Result EscrowRecord × List Row) (b : Result EscrowRecord × Dict EscrowRecord)
    : Type 0 where
  pub answer : a.0 ≡ b.0
  pub shows : Shows a.1 b.1

module _ (rows : List Row) (records : Dict EscrowRecord) (shows : Shows rows records) where
  module _ (id : String) (p : Row → Bool) (f : Row → Row)
      (same_id : (r : Row) → row_id (f r) ≡ row_id r) (at : (r : Row) → p r ≡ true → row_id r ≡ id)
      (r : Row) (found : select row_id id rows ≡ some r) (hit : p r ≡ true) where
    -- one row updated is one entry assigned
    pub update-Shows : Shows (update_where p f rows) (insert id (f r).entry records)
    update-Shows = record {
      keyed = update_where-IsKeyed row_id p f same_id rows shows.keyed;
      same = λ k.
          rw (select-update_where row_id p f same_id k rows, lookup-insert id k (f r).entry records)
            (elim (Bool-cases (id == k)) [
              | inl e ↦ rw (e, ← (eq_iff id k).0 e, found) (rw hit)
              | inr e ↦ rw e (elim (Option-cases (select row_id k rows)) [
                | inl absent ↦ rw (absent, ← shows.same k, absent)
                | inr (q, there) ↦
                    rw (there, ← shows.same k, there)
                      (ground (arith, at q, eq_iff id k, select-key row_id k rows q there))
              ])
            ]);
    }

    pub select-updated : select row_id id (update_where p f rows) ≡ some (f r)
    select-updated = select-update_where row_id p f same_id id rows ∙ rw found (rw hit)

    pub reload-Agrees :
        Agrees
          (Sqlite.reload id (update_where p f rows))
          (ok (f r).entry, insert id (f r).entry records)
    reload-Agrees =
        rw (Sqlite.reload_found id (update_where p f rows) (f r) select-updated)
          (record { answer = refl; shows = update-Shows })

  pub insert-Shows :
      (r : Row)
      → select row_id (row_id r) rows ≡ none
      → Shows (insert_or_ignore row_id r rows) (insert (row_id r) r.entry records)
  insert-Shows r absent = record {
    keyed = insert_or_ignore-IsKeyed row_id r rows shows.keyed;
    same = λ k.
        rw
          (
            select-insert_or_ignore row_id k r rows,
            lookup-insert (row_id r) k r.entry records,
            absent,
          )
          (ground (arith, shows.same k));
  }
