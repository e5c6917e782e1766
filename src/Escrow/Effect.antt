-- ===== src/Escrow/Effect.antt =====
-- What the methods of `SqliteCapabilityEscrow` leave in the table.
use actenon_kernel.Prelude.{
  Bool, Bool-cases, List, Option, String, arith, eq_iff, false, if◌then◌else◌, inl, inr, ltb,
  nat_eq, none, not, refl, some, string_eq, true, ◌==◌, ◌≡◌, ◌⊎◌,
}
use actenon_kernel.Json.{Fields, put, str}
use actenon_kernel.Core.Refusal.{Result, is_ok}
use actenon_kernel.Core.Time.{Time}
use actenon_kernel.Sql.{
  IsKeyed, rowcount, rowcount-eq-matches, select, select-update_where, update_where,
  update_where-IsKeyed, updated,
}
use actenon_kernel.Escrow.Model.{EscrowRecord, Presentation, consumed, expired, revoked, state_beq}
use actenon_kernel.Escrow.Sqlite.{
  Row, consume_row, expire_row, has_id, is_issued, revoke_row, row_id,
}
use actenon_kernel.Escrow.Shows.{entry_of}
use actenon_kernel.Escrow.Once.{is_spent}
use actenon_kernel.Escrow.Sqlite

pub reload-rows : (id : String) (rows : List Row) → (Sqlite.reload id rows).1 ≡ rows
unfolding Sqlite.reload
reload-rows id rows = ground arith

lost_race-rows : (id : String) (rows : List Row) → (Sqlite.lost_race id rows).1 ≡ rows
unfolding Sqlite.lost_race
lost_race-rows id rows = ground arith

lost_race_refuses : (id : String) (rows : List Row) → is_ok (Sqlite.lost_race id rows).0 ≡ false
unfolding Sqlite.lost_race
lost_race_refuses id rows = ground arith

abbrev pub view : String → List Row → Option EscrowRecord
view id rows = entry_of (select row_id id rows)

issued_id : (id : String) (q : Row) → is_issued id q ≡ true → row_id q ≡ id
issued_id id q h = (eq_iff (row_id q) id).0 (ground arith)

-- An update of issued rows, seen under a key.
pub view-update :
    (id k : String) (f : Row → Row) (same : (r : Row) → row_id (f r) ≡ row_id r) (rows : List Row)
    → view k (update_where (is_issued id) f rows)
      ≡ entry_of (updated (is_issued id) f (select row_id k rows))
view-update id k f same rows = rw (select-update_where row_id (is_issued id) f same k rows)

-- What `consume` leaves: the rows as they were, the issued row marked expired, or the one issued
-- row consumed. Only the last returns.
pub data Effect (p : Presentation) (rows : List Row) (x : Result EscrowRecord × List Row)
    : Type 0 where
  refusal : is_ok x.0 ≡ false → x.1 ≡ rows → Effect p rows x
  expiry :
      is_ok x.0 ≡ false
      → x.1 ≡ update_where (is_issued p.escrow_id) (expire_row p.now) rows
      → Effect p rows x
  consumption :
      (rowcount (is_issued p.escrow_id) rows == 1) ≡ true
      → x.1 ≡ update_where (is_issued p.escrow_id) (consume_row p.now) rows
      → Effect p rows x

Effect-if :
    (p : Presentation) (rows : List Row) (b : Bool) (x y : Result EscrowRecord × List Row)
    → Effect p rows x
    → (b ≡ false → Effect p rows y)
    → Effect p rows (if b then x else y)
Effect-if p rows true x y a c = a
Effect-if p rows false x y a c = c refl

pub consume_effect :
    (p : Presentation) (o : Option Row) (rows : List Row)
    → Effect p rows (Sqlite.consume_selected p o rows)
unfolding Sqlite.consume_selected
consume_effect p none rows = refusal refl refl
consume_effect p (some r) rows =
    Effect-if p rows (state_beq r.state revoked) _ _ (refusal refl refl) λ _.
      Effect-if p rows (state_beq r.state consumed) _ _ (refusal refl refl) λ _.
        Effect-if p rows (state_beq r.state expired) _ _ (refusal refl refl) λ _.
          Effect-if p rows (ltb r.expires_at p.now) _ _ (expiry refl refl) λ _.
            Effect-if p rows (not (r.pccb_id == p.pccb_id)) _ _ (refusal refl refl) λ _.
              Effect-if p rows (not (r.capability == p.capability)) _ _ (refusal refl refl) λ _.
                elim (Bool-cases (rowcount (is_issued p.escrow_id) rows == 1)) [
                  | inl e ↦ rw e (
                      consumption e (
                        reload-rows p.escrow_id
                          (update_where (is_issued p.escrow_id) (consume_row p.now) rows)))
                  | inr e ↦ rw e (
                      refusal (lost_race_refuses p.escrow_id rows)
                        (lost_race-rows p.escrow_id rows))
                ]

module _ (p : Presentation) (rows : List Row) (x : Result EscrowRecord × List Row)
    (h : IsKeyed row_id rows) where
  pub effect-IsKeyed : Effect p rows x → IsKeyed row_id x.1
  effect-IsKeyed (refusal a e) = rw e h
  effect-IsKeyed (expiry a e) =
      rw e
        (update_where-IsKeyed row_id (is_issued p.escrow_id) (expire_row p.now) (λ _. refl) rows h)
  effect-IsKeyed (consumption a e) =
      rw e
        (update_where-IsKeyed row_id (is_issued p.escrow_id) (consume_row p.now) (λ _. refl) rows h)

  pub effect_stays :
      (id : String)
      → is_spent (view id rows) ≡ true
      → Effect p rows x
      → is_spent (view id x.1) ≡ true
  effect_stays id s (refusal a e) = rw e s
  effect_stays id s (expiry a e) =
      rw (e, view-update p.escrow_id id (expire_row p.now) (λ _. refl) rows) (ground arith)
  effect_stays id s (consumption a e) =
      rw (e, view-update p.escrow_id id (consume_row p.now) (λ _. refl) rows) (ground arith)

  pub effect_takes :
      is_ok x.0 ≡ true
      → Effect p rows x
      → (is_spent (view p.escrow_id rows) ≡ false) × (is_spent (view p.escrow_id x.1) ≡ true)
  effect_takes done (refusal a e) = absurd (cc (done, a))
  effect_takes done (expiry a e) = absurd (cc (done, a))
  effect_takes done (consumption one e) =
      rw (e, view-update p.escrow_id p.escrow_id (consume_row p.now) (λ _. refl) rows)
        (ground (
          arith,
          one,
          rowcount-eq-matches row_id (is_issued p.escrow_id) p.escrow_id rows
              (issued_id p.escrow_id) h,
        ))

pub revoke-rows :
    (clock : Time) (id reason : String) (rows : List Row) (o : Option Row)
    → ((Sqlite.revoke_selected clock id reason o rows).1 ≡ rows)
      ⊎ ((m : Fields) × ((Sqlite.revoke_selected clock id reason o rows).1
            ≡ update_where (has_id id) (revoke_row clock m) rows))
unfolding Sqlite.revoke_selected
revoke-rows clock id reason rows none = inl refl
revoke-rows clock id reason rows (some r) =
    inr (put r.metadata "revocation_reason" (str reason), reload-rows id _)
