-- ===== src/Escrow/Tests.antt =====
-- One escrow record in both stores, and each theorem at it.
use actenon_kernel.Prelude.{
  List, [], ap, arith, count, false, none, refl, some, true, ◌<◌, ◌∷◌, ◌≡◌, ◌≤◌,
}
use actenon_kernel.Core.Refusal.{escrow_error, ok, refused}
use actenon_kernel.Core.Time.{Time}
use actenon_kernel.Dict.{Dict}
use actenon_kernel.Json.{end}
use actenon_kernel.Sql.{insert_or_ignore, rowcount, select, update_where}
use actenon_kernel.Escrow.Model.{
  EscrowRecord, Issue, Presentation, consumed_record, expired, expired_record, issued_record,
  state_beq,
}
use actenon_kernel.Escrow.Sqlite.{Row, new_row, row_id}
use actenon_kernel.Escrow.Shows.{Agrees, Shows}
use actenon_kernel.Escrow.Refines.{issue-Agrees, revoke-Agrees}
use actenon_kernel.Escrow.Consume.{consume-Agrees}
use actenon_kernel.Escrow.Expired.{expired_consume_differs}
use actenon_kernel.Escrow.Once.{Call, consume_call, consumes, in_memory, in_sqlite, issue_call, run}
use actenon_kernel.Escrow.MemoryOnce.{memory_consumed_once}
use actenon_kernel.Escrow.SqliteOnce.{sqlite_consumed_once}
use actenon_kernel.Escrow.Memory
use actenon_kernel.Escrow.Sqlite

abbrev ticket : Issue
ticket = record {
  escrow_id = "esc-1";
  pccb_id = "pccb-1";
  capability = "payment.release";
  expires_at = 100;
  metadata = end;
}

abbrev second_ticket : Issue
second_ticket = record ticket { escrow_id = "esc-2" }

abbrev at_time : Time → Presentation
at_time now = record {
  escrow_id = "esc-1";
  pccb_id = "pccb-1";
  capability = "payment.release";
  now = now;
}

abbrev ticket_row : Row
ticket_row = new_row 10 ticket

abbrev expired_row : Row
expired_row = record ticket_row { entry = expired_record ticket_row.entry }

abbrev one_row : List Row
one_row = ticket_row ∷ []

abbrev one_record : Dict EscrowRecord
one_record = ("esc-1", issued_record ticket) ∷ []

single-Shows : (r : Row) → Shows (r ∷ []) ((row_id r, r.entry) ∷ [])
single-Shows r = record { keyed = (refl, tt); same = λ k. ground arith }

-- issued, consumed, and refused the second time
consume_twice :
    (Sqlite.consume (at_time 20) (Sqlite.consume (at_time 20) one_row).1).0
    ≡ refused (escrow_error "ESCROW_ALREADY_CONSUMED")
unfolding Sqlite.consume Sqlite.consume_selected Sqlite.reload rowcount update_where
consume_twice = refl

issue-Agrees_example :
    Agrees (Sqlite.issue 10 second_ticket one_row) (Memory.issue second_ticket one_record)
issue-Agrees_example = issue-Agrees one_row one_record (single-Shows ticket_row) 10 second_ticket

revoke-Agrees_example :
    Agrees (Sqlite.revoke 10 "esc-1" "stolen" one_row) (Memory.revoke "esc-1" "stolen" one_record)
revoke-Agrees_example =
    revoke-Agrees one_row one_record (single-Shows ticket_row) 10 "esc-1" "stolen"

not_expired :
    (r : Row)
    → select row_id "esc-1" one_row ≡ some r
    → state_beq r.state expired ≡ true
    → r.expires_at < 20
not_expired r e x =
    absurd (cc (ap (elim [ none ↦ false | some q ↦ state_beq q.state expired ]) e, x))

consume-Agrees_example :
    Agrees (Sqlite.consume (at_time 20) one_row) (Memory.consume (at_time 20) one_record)
consume-Agrees_example =
    consume-Agrees one_row one_record (single-Shows ticket_row) (at_time 20) not_expired

expired_consume_differs_example :
    ((Memory.consume (at_time 20) (("esc-1", expired_row.entry) ∷ [])).0
      ≡ ok (consumed_record 20 expired_row.entry))
    × (Sqlite.consume (at_time 20) (expired_row ∷ [])
        ≡ (refused (escrow_error "ESCROW_EXPIRED"), expired_row ∷ []))
expired_consume_differs_example =
    expired_consume_differs (at_time 20) expired_row (expired_row ∷ [])
      (("esc-1", expired_row.entry) ∷ []) (single-Shows expired_row) refl refl (omega arith) refl
      refl

abbrev calls : List Call
calls =
    issue_call 10 ticket
    ∷ consume_call (at_time 20)
    ∷ consume_call (at_time 5)
    ∷ issue_call 30 ticket
    ∷ consume_call (at_time 30)
    ∷ []

-- the first consumption of the schedule returns
consumed_there : count (consumes "esc-1") (run in_sqlite calls []) ≡ 1
unfolding run in_sqlite Sqlite.issue Sqlite.consume Sqlite.consume_selected Sqlite.reload
    insert_or_ignore rowcount update_where
consumed_there = refl

memory_consumed_once_example : count (consumes "esc-1") (run in_memory calls []) ≤ 1
memory_consumed_once_example = memory_consumed_once "esc-1" calls []

sqlite_consumed_once_example : count (consumes "esc-1") (run in_sqlite calls []) ≤ 1
sqlite_consumed_once_example = sqlite_consumed_once "esc-1" calls [] tt
