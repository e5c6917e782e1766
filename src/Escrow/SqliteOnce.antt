-- ===== src/Escrow/SqliteOnce.antt =====
-- `SqliteCapabilityEscrow` under schedules of calls (actenon/escrow/sqlite.py).
use actenon_kernel.Prelude.{
  List, String, arith, count, eq_iff, false, inl, inr, refl, true, ◌≡◌, ◌≤◌,
}
use actenon_kernel.Core.Refusal.{is_ok}
use actenon_kernel.Sql.{
  IsKeyed, insert_or_ignore, insert_or_ignore-IsKeyed, select, select-insert_or_ignore,
  select-update_where, update_where-IsKeyed,
}
use actenon_kernel.Escrow.Sqlite.{Row, has_id, new_row, revoke_row, row_id}
use actenon_kernel.Escrow.Once.{
  Call, Spends, consume_call, consumed_at_most_once, consumes, in_sqlite, is_spent, issue_call,
  revoke_call, run,
}
use actenon_kernel.Escrow.Effect.{
  consume_effect, effect-IsKeyed, effect_stays, effect_takes, reload-rows, revoke-rows, view,
}
use actenon_kernel.Escrow.Sqlite

sqlite_keeps : (c : Call) (s : List Row) → IsKeyed row_id s → IsKeyed row_id (in_sqlite c s).1
unfolding in_sqlite Sqlite.issue Sqlite.consume Sqlite.revoke
sqlite_keeps (issue_call clock i) s h = ground (
  arith,
  reload-rows i.escrow_id (insert_or_ignore row_id (new_row clock i) s),
  insert_or_ignore-IsKeyed row_id (new_row clock i) s h,
)
sqlite_keeps (consume_call p) s h =
    effect-IsKeyed p s _ h (consume_effect p (select row_id p.escrow_id s) s)
sqlite_keeps (revoke_call clock j reason) s h =
    elim (revoke-rows clock j reason s (select row_id j s)) [
      | inl e ↦ rw e h
      | inr (m, e) ↦
          rw e (update_where-IsKeyed row_id (has_id j) (revoke_row clock m) (λ _. refl) s h)
    ]

sqlite_stays :
    (id : String) (c : Call) (s : List Row)
    → IsKeyed row_id s
    → is_spent (view id s) ≡ true
    → is_spent (view id (in_sqlite c s).1) ≡ true
unfolding in_sqlite Sqlite.issue Sqlite.consume Sqlite.revoke
sqlite_stays id (issue_call clock i) s h sp = ground (
  arith,
  reload-rows i.escrow_id (insert_or_ignore row_id (new_row clock i) s),
  select-insert_or_ignore row_id id (new_row clock i) s,
  eq_iff i.escrow_id id,
)
sqlite_stays id (consume_call p) s h sp =
    effect_stays p s _ h id sp (consume_effect p (select row_id p.escrow_id s) s)
sqlite_stays id (revoke_call clock j reason) s h sp =
    elim (revoke-rows clock j reason s (select row_id j s)) [
      | inl e ↦ rw e sp
      | inr (m, e) ↦
          rw (e, select-update_where row_id (has_id j) (revoke_row clock m) (λ _. refl) id s)
            (ground arith)
    ]

sqlite_takes :
    (id : String) (c : Call) (s : List Row)
    → IsKeyed row_id s
    → consumes id (c, (in_sqlite c s).0) ≡ true
    → (is_spent (view id s) ≡ false) × (is_spent (view id (in_sqlite c s).1) ≡ true)
unfolding in_sqlite Sqlite.consume
sqlite_takes id (issue_call clock i) s h e = cc
sqlite_takes id (consume_call p) s h e =
    let done : is_ok (Sqlite.consume p s).0 ≡ true = ground arith in
    rw (← (eq_iff p.escrow_id id).0 (ground arith))
      (effect_takes p s _ h done (consume_effect p (select row_id p.escrow_id s) s))
sqlite_takes id (revoke_call clock j reason) s h e = cc

sqlite-Spends : Spends in_sqlite view (IsKeyed row_id)
sqlite-Spends = record { keeps = sqlite_keeps; stays = sqlite_stays; takes = sqlite_takes }

-- Over any schedule of issue, consume and revoke calls and clocks, at most one `consume` of an
-- escrow id by the SQLite store returns, if the table has its primary key.
pub sqlite_consumed_once :
    (id : String) (calls : List Call) (rows : List Row)
    → IsKeyed row_id rows
    → count (consumes id) (run in_sqlite calls rows) ≤ 1
sqlite_consumed_once id calls rows h =
    consumed_at_most_once in_sqlite view (IsKeyed row_id) sqlite-Spends id calls rows h
