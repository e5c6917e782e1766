-- ===== src/Escrow/Memory.antt =====
-- `InMemoryCapabilityEscrow` (actenon/escrow/memory.py). Its lock makes each method one step.
use actenon_kernel.Prelude.{
  Option, String, if◌then◌else◌, is_some, ltb, nat_eq, none, not, some, string_eq, ◌==◌,
}
use actenon_kernel.Core.Refusal.{Exec, escrow_error, ok, refused}
use actenon_kernel.Dict.{Dict, insert, lookup}
use actenon_kernel.Escrow.Model.{
  EscrowRecord, Issue, Presentation, consumed, consumed_record, expired_record, issued_record,
  revoked, revoked_record, state_beq,
}

abbrev pub Records : Type 0
Records = Dict EscrowRecord

unfoldable pub issue : Issue → Exec Records EscrowRecord
issue i records =
    if is_some (lookup i.escrow_id records)
    then (refused (escrow_error "ESCROW_ALREADY_EXISTS"), records)
    else (ok (issued_record i), insert i.escrow_id (issued_record i) records)

unfoldable pub inspect : String → Exec Records (Option EscrowRecord)
inspect escrow_id records = (ok (lookup escrow_id records), records)

-- `consume` with the record that it has found
unfoldable pub consume_found : Presentation → Option EscrowRecord → Exec Records EscrowRecord
consume_found p none records = (refused (escrow_error "ESCROW_NOT_FOUND"), records)
consume_found p (some r) records =
    if state_beq r.state revoked
    then (refused (escrow_error "ESCROW_REVOKED"), records)
    else if state_beq r.state consumed
    then (refused (escrow_error "ESCROW_ALREADY_CONSUMED"), records)
    else if ltb r.expires_at p.now
    then (refused (escrow_error "ESCROW_EXPIRED"), insert p.escrow_id (expired_record r) records)
    else if not (r.pccb_id == p.pccb_id)
    then (refused (escrow_error "ESCROW_PCCB_MISMATCH"), records)
    else if not (r.capability == p.capability)
    then (refused (escrow_error "ESCROW_CAPABILITY_MISMATCH"), records)
    else (ok (consumed_record p.now r), insert p.escrow_id (consumed_record p.now r) records)

unfoldable pub consume : Presentation → Exec Records EscrowRecord
unfolding consume_found
consume p records = consume_found p (lookup p.escrow_id records) records

unfoldable pub revoke_found : String → String → Option EscrowRecord → Exec Records EscrowRecord
revoke_found escrow_id reason none records = (refused (escrow_error "ESCROW_NOT_FOUND"), records)
revoke_found escrow_id reason (some r) records =
    (ok (revoked_record reason r), insert escrow_id (revoked_record reason r) records)

unfoldable pub revoke : String → String → Exec Records EscrowRecord
unfolding revoke_found
revoke escrow_id reason records = revoke_found escrow_id reason (lookup escrow_id records) records
