-- ===== src/Escrow/Expired.antt =====
-- Where the two escrow stores part: a record that has been marked expired, and an earlier clock.
use actenon_kernel.Prelude.{List, arith, eq_iff, refl, some, ◌≡◌, ◌≤◌}
use actenon_kernel.Core.Refusal.{escrow_error, ok, refused}
use actenon_kernel.Dict.{Dict}
use actenon_kernel.Sql.{select}
use actenon_kernel.Escrow.Model.{EscrowRecord, Presentation, consumed_record, expired}
use actenon_kernel.Escrow.Sqlite.{Row, row_id}
use actenon_kernel.Escrow.Shows.{Shows}
use actenon_kernel.Escrow.Memory
use actenon_kernel.Escrow.Sqlite

-- A record that is marked expired, presented with the right proof and capability under a clock that
-- stands before its expiry, is handed out by the in-memory store and refused by the SQLite store
-- over the same records, which leaves its rows as they are.
pub expired_consume_differs :
    (p : Presentation) (r : Row) (rows : List Row) (records : Dict EscrowRecord)
    → Shows rows records
    → select row_id p.escrow_id rows ≡ some r
    → r.state ≡ expired
    → p.now ≤ r.expires_at
    → r.pccb_id ≡ p.pccb_id
    → r.capability ≡ p.capability
    → ((Memory.consume p records).0 ≡ ok (consumed_record p.now r.entry))
      × (Sqlite.consume p rows ≡ (refused (escrow_error "ESCROW_EXPIRED"), rows))
unfolding Memory.consume Sqlite.consume
expired_consume_differs p r rows records shows found s early proof capability = (
  rw (← shows.same p.escrow_id, found)
      (unfold Memory.consume_found in
        ground (arith, eq_iff r.pccb_id p.pccb_id, eq_iff r.capability p.capability)),
  rw found (unfold Sqlite.consume_selected in rw s refl),
)
