-- ===== src/Escrow/Consume.antt =====
-- `consume` of actenon/escrow/sqlite.py beside that of actenon/escrow/memory.py.
use actenon_kernel.Prelude.{
  Bool, Bool-cases, List, Option-cases, String, ap, arith, eq_iff, false, if◌then◌else◌, inl, inr,
  ltb, lt→ltb, nat_eq, not, refl, some, string_eq, true, ◌<◌, ◌==◌, ◌≡◌,
}
use actenon_kernel.Core.Refusal.{Result, escrow_error, ok, refused}
use actenon_kernel.Dict.{Dict, insert, lookup-insert}
use actenon_kernel.Sql.{rowcount, rowcount-eq-matches, select, select-key, update_where}
use actenon_kernel.Escrow.Model.{
  EscrowRecord, EscrowState, Presentation, consumed, consumed_record, expired, expired_record,
  issued, revoked, state_beq,
}
use actenon_kernel.Escrow.Sqlite.{Row, consume_row, expire_row, is_issued, row_id}
use actenon_kernel.Escrow.Shows.{Agrees, Shows, reload-Agrees, update-Shows}
use actenon_kernel.Escrow.Memory
use actenon_kernel.Escrow.Sqlite

-- What each state rules out.
issued_only :
    (s : EscrowState)
    → state_beq s issued ≡ true
    → (state_beq s revoked ≡ false) × (state_beq s consumed ≡ false) × (state_beq s expired ≡ false)
issued_only s h = ground arith

expired_only :
    (s : EscrowState)
    → state_beq s expired ≡ true
    → (state_beq s revoked ≡ false) × (state_beq s consumed ≡ false)
expired_only s h = ground arith

over_only :
    (s : EscrowState)
    → state_beq s issued ≡ false
    → state_beq s expired ≡ false
    → state_beq s revoked ≡ false
    → state_beq s consumed ≡ true
over_only s a b c = ground arith

is_expired : (s : EscrowState) → state_beq s expired ≡ true → s ≡ expired
is_expired s h = ground arith

Agrees-if :
    (b : Bool) {x y : Result EscrowRecord × List Row}
    {x' y' : Result EscrowRecord × Dict EscrowRecord}
    → Agrees x x'
    → Agrees y y'
    → Agrees (if b then x else y) (if b then x' else y')
Agrees-if true a c = a
Agrees-if false a c = c

module _ (rows : List Row) (records : Dict EscrowRecord) (shows : Shows rows records) where
  issued_id : (id : String) (q : Row) → is_issued id q ≡ true → row_id q ≡ id
  issued_id id q h = (eq_iff (row_id q) id).0 (ground arith)

  module _ (p : Presentation) (r : Row) (e : select row_id p.escrow_id rows ≡ some r) where
    issued_hit : state_beq r.state issued ≡ true → is_issued p.escrow_id r ≡ true
    issued_hit s =
        ground (arith, (eq_iff (row_id r) p.escrow_id).1 (select-key row_id p.escrow_id rows r e))

    one_issued :
        state_beq r.state issued ≡ true → (rowcount (is_issued p.escrow_id) rows == 1) ≡ true
    one_issued s =
        rw
          (
            rowcount-eq-matches row_id (is_issued p.escrow_id) p.escrow_id rows
                (issued_id p.escrow_id) shows.keyed,
            e,
          )
          (rw (issued_hit s))

    consumed-Agrees :
        state_beq r.state issued ≡ true
        → Agrees
            (Sqlite.reload p.escrow_id
              (update_where (is_issued p.escrow_id) (consume_row p.now) rows))
            (
              ok (consumed_record p.now r.entry),
              insert p.escrow_id (consumed_record p.now r.entry) records,
            )
    consumed-Agrees s =
        reload-Agrees rows records shows p.escrow_id (is_issued p.escrow_id) (consume_row p.now)
          (λ _. refl) (issued_id p.escrow_id) r e (issued_hit s)

    expired-Shows :
        state_beq r.state issued ≡ true
        → Shows
            (update_where (is_issued p.escrow_id) (expire_row p.now) rows)
            (insert p.escrow_id (expired_record r.entry) records)
    expired-Shows s =
        update-Shows rows records shows p.escrow_id (is_issued p.escrow_id) (expire_row p.now)
          (λ _. refl) (issued_id p.escrow_id) r e (issued_hit s)

    stay-Agrees :
        (code : String)
        → Agrees (refused (escrow_error code), rows) (refused (escrow_error code), records)
    stay-Agrees code = record { answer = refl; shows = shows }

    -- a record that is revoked or consumed: both refuse alike
    consume_over-Agrees :
        state_beq r.state issued ≡ false
        → state_beq r.state expired ≡ false
        → Agrees
            (Sqlite.consume_selected p (some r) rows)
            (Memory.consume_found p (some r.entry) records)
    unfolding Sqlite.consume_selected Memory.consume_found
    consume_over-Agrees a b = elim (Bool-cases (state_beq r.state revoked)) [
      | inl s ↦ rw s (stay-Agrees "ESCROW_REVOKED")
      | inr s ↦ rw (s, over_only r.state a b s) (stay-Agrees "ESCROW_ALREADY_CONSUMED")
    ]

    -- the three tests that both stores make in the same order, after the state is known to be issued
    consume_issued-Agrees :
        state_beq r.state issued ≡ true
        → Agrees
            (Sqlite.consume_selected p (some r) rows)
            (Memory.consume_found p (some r.entry) records)
    unfolding Sqlite.consume_selected Memory.consume_found
    consume_issued-Agrees s =
        let live = issued_only r.state s in
        rw (live.0, live.1, live.2, one_issued s)
          (Agrees-if (ltb r.expires_at p.now) (record { answer = refl; shows = expired-Shows s })
            (Agrees-if (not (r.pccb_id == p.pccb_id)) (stay-Agrees "ESCROW_PCCB_MISMATCH") (
              Agrees-if (not (r.capability == p.capability))
                (stay-Agrees "ESCROW_CAPABILITY_MISMATCH") (consumed-Agrees s))))

    -- a record that is marked expired: both refuse, if the clock is past its expiry
    consume_expired-Agrees :
        state_beq r.state expired ≡ true
        → r.expires_at < p.now
        → Agrees
            (Sqlite.consume_selected p (some r) rows)
            (Memory.consume_found p (some r.entry) records)
    unfolding Sqlite.consume_selected Memory.consume_found
    consume_expired-Agrees s late =
        let over = expired_only r.state s in
        rw (over.0, over.1, s, lt→ltb r.expires_at p.now late)
          (record {
            answer = refl;
            shows = record {
              keyed = shows.keyed;
              same = λ k.
                  rw (lookup-insert p.escrow_id k (expired_record r.entry) records)
                    (elim (Bool-cases (p.escrow_id == k)) [
                      | inr ne ↦ rw ne (shows.same k)
                      | inl id ↦
                          rw (id, ← (eq_iff p.escrow_id k).0 id, e)
                            (ap some (
                              ap (λ (x : EscrowState). record r.entry { state = x })
                                (is_expired r.state s)))
                    ]);
            };
          })

    consume_found-Agrees :
        (state_beq r.state expired ≡ true → r.expires_at < p.now)
        → Agrees
            (Sqlite.consume_selected p (some r) rows)
            (Memory.consume_found p (some r.entry) records)
    consume_found-Agrees late = elim (Bool-cases (state_beq r.state issued)) [
      | inl s ↦ consume_issued-Agrees s
      | inr a ↦ elim (Bool-cases (state_beq r.state expired)) [
        | inl s ↦ consume_expired-Agrees s (late s)
        | inr b ↦ consume_over-Agrees a b
      ]
    ]

  -- `consume` gives the same answer in the SQLite and the in-memory store, and leaves the same
  -- records, on every branch, if a record that is marked expired is presented only after its
  -- expiry.
  pub consume-Agrees :
      (p : Presentation)
      → ((r : Row)
          → select row_id p.escrow_id rows ≡ some r
          → state_beq r.state expired ≡ true
          → r.expires_at < p.now)
      → Agrees (Sqlite.consume p rows) (Memory.consume p records)
  unfolding Sqlite.consume Memory.consume
  consume-Agrees p late = elim (Option-cases (select row_id p.escrow_id rows)) [
    | inl e ↦
        rw (← shows.same p.escrow_id, e)
          (unfold Sqlite.consume_selected Memory.consume_found in
            record { answer = refl; shows = shows })
    | inr (r, e) ↦ rw (← shows.same p.escrow_id, e) (consume_found-Agrees p r e (late r e))
  ]
