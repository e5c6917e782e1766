-- ===== src/Escrow/Sqlite.antt =====
-- `SqliteCapabilityEscrow` (actenon/escrow/sqlite.py). `BEGIN IMMEDIATE` makes each transaction one
-- step. `clock` is the system time that `issue` and `revoke` read.
use actenon_kernel.Prelude.{
  Bool, List, Option, String, if◌then◌else◌, is_some, ltb, nat_eq, none, not, some, string_eq, ◌&&◌,
  ◌==◌, ◌≡◌,
}
use actenon_kernel.Json.{Fields, put, str}
use actenon_kernel.Core.Refusal.{Exec, escrow_error, ok, raised, refused}
use actenon_kernel.Core.Time.{Time}
use actenon_kernel.Sql.{insert_or_ignore, rowcount, select, update_where}
use actenon_kernel.Escrow.Model.{
  EscrowRecord, Issue, Presentation, consumed, consumed_record, expired, expired_record, issued,
  issued_record, revoked, state_beq,
}

-- a row of `capability_escrow`
pub record Row : Type 0 where
  pub entry : EscrowRecord
  pub open entry use *
  pub created_at : Time
  pub updated_at : Time

abbrev pub row_id : Row → String
row_id r = r.escrow_id

abbrev pub is_issued : String → Row → Bool
is_issued escrow_id r = row_id r == escrow_id && state_beq r.state issued

abbrev pub has_id : String → Row → Bool
has_id escrow_id r = row_id r == escrow_id

-- `_select_row` and `_row_to_record`
unfoldable pub inspect : String → Exec (List Row) (Option EscrowRecord)
inspect escrow_id rows = elim (select row_id escrow_id rows) [
  | none ↦ (ok none, rows)
  | some r ↦ (ok (some r.entry), rows)
]

-- the last lines of `issue`, `consume` and `revoke`: a row that cannot be reloaded is a RuntimeError
unfoldable pub reload : String → Exec (List Row) EscrowRecord
unfolding inspect
reload escrow_id rows = elim (select row_id escrow_id rows) [
  | none ↦ (raised, rows)
  | some r ↦ (ok r.entry, rows)
]

abbrev pub new_row : Time → Issue → Row
new_row clock i = record { entry = issued_record i; created_at = clock; updated_at = clock }

-- a plain INSERT, which raises IntegrityError on a key that is there
unfoldable pub issue : Time → Issue → Exec (List Row) EscrowRecord
issue clock i rows =
    if is_some (select row_id i.escrow_id rows)
    then (refused (escrow_error "ESCROW_ALREADY_EXISTS"), rows)
    else reload i.escrow_id (insert_or_ignore row_id (new_row clock i) rows)

abbrev pub expire_row : Time → Row → Row
expire_row now r = record r { entry = expired_record r.entry; updated_at = now }

abbrev pub consume_row : Time → Row → Row
consume_row now r = record r { entry = consumed_record now r.entry; updated_at = now }

abbrev pub revoke_row : Time → Fields → Row → Row
revoke_row clock metadata r = record r {
  entry = record r.entry { state = revoked; metadata = metadata };
  updated_at = clock;
}

-- what follows an update that has met no issued row
unfoldable pub lost_race : String → Exec (List Row) EscrowRecord
lost_race escrow_id rows = elim (select row_id escrow_id rows) [
  | none ↦ (refused (escrow_error "ESCROW_STATE_INVALID"), rows)
  | some r ↦
      if state_beq r.state consumed
      then (refused (escrow_error "ESCROW_ALREADY_CONSUMED"), rows)
      else (refused (escrow_error "ESCROW_STATE_INVALID"), rows)
]

unfoldable pub consume_selected : Presentation → Option Row → Exec (List Row) EscrowRecord
consume_selected p none rows = (refused (escrow_error "ESCROW_NOT_FOUND"), rows)
consume_selected p (some r) rows =
    if state_beq r.state revoked
    then (refused (escrow_error "ESCROW_REVOKED"), rows)
    else if state_beq r.state consumed
    then (refused (escrow_error "ESCROW_ALREADY_CONSUMED"), rows)
    else if state_beq r.state expired
    then (refused (escrow_error "ESCROW_EXPIRED"), rows)
    else if ltb r.expires_at p.now
    then (
      refused (escrow_error "ESCROW_EXPIRED"),
      update_where (is_issued p.escrow_id) (expire_row p.now) rows,
    )
    else if not (r.pccb_id == p.pccb_id)
    then (refused (escrow_error "ESCROW_PCCB_MISMATCH"), rows)
    else if not (r.capability == p.capability)
    then (refused (escrow_error "ESCROW_CAPABILITY_MISMATCH"), rows)
    else if rowcount (is_issued p.escrow_id) rows == 1
    then reload p.escrow_id (update_where (is_issued p.escrow_id) (consume_row p.now) rows)
    else lost_race p.escrow_id rows

unfoldable pub consume : Presentation → Exec (List Row) EscrowRecord
unfolding consume_selected
consume p rows = consume_selected p (select row_id p.escrow_id rows) rows

unfoldable pub revoke_selected : Time → String → String → Option Row → Exec (List Row) EscrowRecord
revoke_selected clock escrow_id reason none rows = (refused (escrow_error "ESCROW_NOT_FOUND"), rows)
revoke_selected clock escrow_id reason (some r) rows = reload escrow_id (
    update_where (has_id escrow_id)
      (revoke_row clock (put r.metadata "revocation_reason" (str reason))) rows)

unfoldable pub revoke : Time → String → String → Exec (List Row) EscrowRecord
unfolding revoke_selected
revoke clock escrow_id reason rows =
    revoke_selected clock escrow_id reason (select row_id escrow_id rows) rows

pub reload_found :
    (escrow_id : String) (rows : List Row) (r : Row)
    → select row_id escrow_id rows ≡ some r
    → reload escrow_id rows ≡ (ok r.entry, rows)
unfolding reload
reload_found escrow_id rows r e = rw (e, reload)
