-- ===== src/Escrow/Refines.antt =====
-- `issue` and `revoke` of actenon/escrow/sqlite.py beside those of actenon/escrow/memory.py.
use actenon_kernel.Prelude.{
  List, Option-cases, String, eq_iff, inl, inr, none, refl, some, sym, ◌∙◌, ◌≡◌,
}
use actenon_kernel.Json.{put, str}
use actenon_kernel.Core.Time.{Time}
use actenon_kernel.Dict.{Dict, lookup}
use actenon_kernel.Sql.{insert_or_ignore, select, select-insert_or_ignore, select-key}
use actenon_kernel.Escrow.Model.{EscrowRecord, Issue}
use actenon_kernel.Escrow.Sqlite.{Row, has_id, new_row, revoke_row, row_id}
use actenon_kernel.Escrow.Shows.{Agrees, Shows, entry_of, insert-Shows, reload-Agrees}
use actenon_kernel.Escrow.Memory
use actenon_kernel.Escrow.Sqlite

module _ (rows : List Row) (records : Dict EscrowRecord) (shows : Shows rows records) where
  same_lookup : (k : String) → lookup k records ≡ entry_of (select row_id k rows)
  same_lookup k = sym (shows.same k)

  select-new :
      (clock : Time) (i : Issue)
      → select row_id i.escrow_id rows ≡ none
      → select row_id i.escrow_id (insert_or_ignore row_id (new_row clock i) rows)
        ≡ some (new_row clock i)
  select-new clock i e =
      select-insert_or_ignore row_id i.escrow_id (new_row clock i) rows
      ∙ rw (e, (eq_iff i.escrow_id i.escrow_id).1 refl)

  -- `issue` gives the same answer in the SQLite and the in-memory store and leaves the same
  -- records: both refuse an id that is there, and otherwise both store the same issued record.
  pub issue-Agrees :
      (clock : Time) (i : Issue) → Agrees (Sqlite.issue clock i rows) (Memory.issue i records)
  unfolding Sqlite.issue Memory.issue
  issue-Agrees clock i = elim (Option-cases (select row_id i.escrow_id rows)) [
    | inr (r, e) ↦ rw (same_lookup i.escrow_id, e) (record { answer = refl; shows = shows })
    | inl e ↦
        rw (same_lookup i.escrow_id, e)
          (rw
            (Sqlite.reload_found i.escrow_id (insert_or_ignore row_id (new_row clock i) rows)
              (new_row clock i) (select-new clock i e))
            (record { answer = refl; shows = insert-Shows rows records shows (new_row clock i) e }))
  ]

  -- `revoke` gives the same answer in the SQLite and the in-memory store and leaves the same
  -- records: both refuse an id that is missing, and otherwise both revoke whatever the state is.
  pub revoke-Agrees :
      (clock : Time) (id reason : String)
      → Agrees (Sqlite.revoke clock id reason rows) (Memory.revoke id reason records)
  unfolding Sqlite.revoke Memory.revoke
  revoke-Agrees clock id reason = elim (Option-cases (select row_id id rows)) [
    | inl e ↦ rw (same_lookup id, e) (record { answer = refl; shows = shows })
    | inr (r, e) ↦
        rw (same_lookup id, e)
          (reload-Agrees rows records shows id (has_id id)
            (revoke_row clock (put r.metadata "revocation_reason" (str reason))) (λ _. refl)
            (λ q h. (eq_iff (row_id q) id).0 h) r e
            ((eq_iff (row_id r) id).1 (select-key row_id id rows r e)))
  ]
