-- ===== src/Escrow/MemoryOnce.antt =====
-- `InMemoryCapabilityEscrow` under schedules of calls (actenon/escrow/memory.py).
use actenon_kernel.Prelude.{
  List, Option-cases, String, arith, count, eq_iff, false, inl, inr, true, ◌≡◌, ◌≤◌,
}
use actenon_kernel.Dict.{lookup, lookup-insert}
use actenon_kernel.Escrow.Model.{consumed_record, expired_record, issued_record, revoked_record}
use actenon_kernel.Escrow.Once.{
  Call, Spends, consume_call, consumed_at_most_once, consumes, in_memory, is_spent, issue_call,
  revoke_call, run,
}
use actenon_kernel.Escrow.Memory

memory_stays :
    (id : String) (c : Call) (s : Memory.Records)
    → is_spent (lookup id s) ≡ true
    → is_spent (lookup id (in_memory c s).1) ≡ true
unfolding in_memory Memory.issue Memory.consume Memory.revoke
memory_stays id (issue_call clock i) s h =
    ground (arith, lookup-insert i.escrow_id id (issued_record i) s, eq_iff i.escrow_id id)
memory_stays id (consume_call p) s h = elim (Option-cases (lookup p.escrow_id s)) [
  | inl e ↦ rw e h
  | inr (r, e) ↦ rw e (
      ground (
        arith,
        h,
        lookup-insert p.escrow_id id (expired_record r) s,
        lookup-insert p.escrow_id id (consumed_record p.now r) s,
        eq_iff p.escrow_id id,
      ))
]
memory_stays id (revoke_call clock j reason) s h = elim (Option-cases (lookup j s)) [
  | inl e ↦ rw e h
  | inr (r, e) ↦ rw e (rw (lookup-insert j id (revoked_record reason r) s) (ground arith))
]

memory_takes :
    (id : String) (c : Call) (s : Memory.Records)
    → consumes id (c, (in_memory c s).0) ≡ true
    → (is_spent (lookup id s) ≡ false) × (is_spent (lookup id (in_memory c s).1) ≡ true)
unfolding in_memory Memory.issue Memory.consume Memory.revoke
memory_takes id (issue_call clock i) s h = cc
memory_takes id (consume_call p) s h = elim (Option-cases (lookup p.escrow_id s)) [
  | inl e ↦ absurd (cc (rw e at h))
  | inr (r, e) ↦ rw e (
      ground (
        arith,
        rw e at h,
        lookup-insert p.escrow_id id (consumed_record p.now r) s,
        eq_iff p.escrow_id id,
      ))
]
memory_takes id (revoke_call clock j reason) s h = cc

memory-Spends : Spends in_memory lookup (λ _. Unit {0})
memory-Spends = record {
  keeps = λ c s h. tt;
  stays = λ id c s _ h. memory_stays id c s h;
  takes = λ id c s _ h. memory_takes id c s h;
}

-- Over any schedule of issue, consume and revoke calls and clocks, at most one `consume` of an
-- escrow id by the in-memory store returns.
pub memory_consumed_once :
    (id : String) (calls : List Call) (s : Memory.Records)
    → count (consumes id) (run in_memory calls s) ≤ 1
memory_consumed_once id calls s =
    consumed_at_most_once in_memory lookup (λ _. Unit {0}) memory-Spends id calls s tt
