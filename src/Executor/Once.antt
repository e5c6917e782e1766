-- ===== src/Executor/Once.antt =====
-- How often a handler is called for one replay key, at an edge with the relational store.
use actenon_kernel.Prelude.{
  Bool-cases, List, Option, Option-cases, String, [], all, arith, count, eq_iff, false, inl, inr,
  is_some, nat_eq, none, refl, some, string_eq, true, ℕ, ◌==◌, ◌∷◌, ◌≡◌, ◌≤◌, ◌⊎◌,
}
use actenon_kernel.Json.{Fields, Json}
use actenon_kernel.Core.Refusal.{Exec, ok}
use actenon_kernel.Contracts.{ProtectedExecutionRequest}
use actenon_kernel.Credentials.{BrokeredCredential}
use actenon_kernel.Effects.{EffectProtector, EffectReference}
use actenon_kernel.Sql.{IsKeyed}
use actenon_kernel.Replay.{ActionConsumptionState, StoreState, mark_consumed, row_key, select_row}
use actenon_kernel.Replay.Moves.{Acts, Acts-refl, Evolves-consumed, is_consumed}
use actenon_kernel.Replay.Methods.{claim_once-Acts, mark_consumed-Acts, release_claim-Acts}
use actenon_kernel.Replay.Service.{build_replay_key, claim_of, claim_request}
use actenon_kernel.Replay.Claiming.{claim_request-built}
use actenon_kernel.Replay.SingleUse.{fresh, mark_consumed-consumed}
use actenon_kernel.Replay.World.{perform, perform-Acts}
use actenon_kernel.Escrow.{EscrowRecord, Presentation}
use actenon_kernel.Executor.Model.{BrokeredHandler, IdempotencyStore, ProtectedExecutor}
use actenon_kernel.Executor.Rules.{Each, Keeps, Preserves}
use actenon_kernel.Executor.Guarded.{Spent, fail_closed}
use actenon_kernel.Executor.Safety.{handler_only_when_spent}
use actenon_kernel.Executor.Edge.{
  Edge, Step, at_edge, effects_at_edge, escrow_at_edge, execution, fails_closed,
  idempotency_at_edge, noting, on_store, on_world, outside, run_steps, step, store_protector,
}

abbrev times : {W : Type 0} → String → Edge W → ℕ
times key e = count (λ k. k == key) e.handled

-- The table has its primary key, and a key with a call is consumed and has one.
abbrev Accounted : {W : Type 0} → String → Edge W → Type 0
Accounted key e =
    IsKeyed row_key e.store.action_consumption
    × ((times key e ≡ 0) ⊎ ((times key e ≡ 1) × (is_consumed (select_row key e.store) ≡ true)))

module _ {W : Type 0} (key : String) where
  world-Keeps : {A : Type 0} (m : Exec W A) → Keeps (Accounted key) (on_world m)
  world-Keeps m = record { kept = λ e h. h }

  acted :
      (e : Edge W) (s : StoreState)
      → Acts e.store s
      → Accounted key e
      → Accounted key (record e { store = s })
  acted e s acts h = (
    acts.keyed h.0,
    elim h.1 [
      | inl never ↦ inl never
      | inr (once, done) ↦ inr (once, rw (Evolves-consumed (acts.evolves h.0 key) done) done)
    ],
  )

  store-Keeps :
      {A : Type 0} (m : Exec StoreState A)
      → ((s : StoreState) → Acts s (m s).1)
      → Keeps (Accounted {W = W} key) (on_store m)
  store-Keeps m acts = record { kept = λ e h. acted e (m e.store).1 (acts e.store) h }

  -- one more call, of a key that was consumed just now
  noted :
      (k : String) (before : Edge W) (s : StoreState)
      → Accounted key (record before { store = s })
      → is_consumed (select_row k before.store) ≡ false
      → is_consumed (select_row k s) ≡ true
      → ((times key before ≡ 0)
          ⊎ ((times key before ≡ 1) × (is_consumed (select_row key before.store) ≡ true)))
      → (w : W) → Accounted key (record { store = s; handled = k ∷ before.handled; world = w })
  noted k before s kept open_before spent_after account w = elim (Bool-cases (k == key)) [
    | inr other ↦ rw other kept
    | inl same ↦
        let e = (eq_iff k key).0 same in
        rw same (
          kept.0,
          elim account [
            | inl never ↦ inr (omega (arith, never), rw (← e) spent_after)
            | inr (once, done) ↦ absurd (cc (e, open_before, done))
          ],
        )
  ]

  module _ (sha256_hex : Json → Option String) (x : ProtectedExecutor W)
      (request : ProtectedExecutionRequest) where
    claim_request-Acts : (s : StoreState) → Acts s (claim_request sha256_hex request s).1
    unfolding claim_request
    claim_request-Acts s =
        elim (Option-cases (build_replay_key sha256_hex request.intent request.pccb)) [
          | inl e ↦ rw e (Acts-refl s)
          | inr (k, e) ↦ rw e (claim_once-Acts (claim_of request k) request.context.now s)
        ]

    escrow_law :
        (c : Option (Presentation → Exec W EscrowRecord))
        → Each (λ c. (a : Presentation) → Keeps (Accounted key) (c a)) (escrow_at_edge c)
    escrow_law none = tt
    escrow_law (some c) = λ a. world-Keeps (c a)

    lookup_law :
        (d : Option (IdempotencyStore W))
        → Each (λ d. (id : Json) → Keeps (Accounted key) (d.lookup id)) (idempotency_at_edge d)
    lookup_law none = tt
    lookup_law (some d) = λ id. world-Keeps (d.lookup id)

    record_law :
        (d : Option (IdempotencyStore W))
        → Each
            (λ d.
              (id : Json) (hash : String) (payload : Option Fields)
              → Keeps (Accounted key) (d.record_result id hash payload))
            (idempotency_at_edge d)
    record_law none = tt
    record_law (some d) = λ id hash payload. world-Keeps (d.record_result id hash payload)

    effect_law :
        (p : Option (EffectProtector W))
        → Each
            (λ p. (r : EffectReference) → Keeps (Accounted key) (p.claim r request))
            (effects_at_edge p)
    effect_law none = tt
    effect_law (some p) = λ r. world-Keeps (p.claim r request)

    laws : Preserves (Accounted key) (fail_closed (store_protector sha256_hex) (at_edge x)) request
    unfolding at_edge store_protector
    laws = record {
      claim = store-Keeps _ claim_request-Acts;
      mark = λ k now. store-Keeps _ (mark_consumed-Acts k now);
      release_claim = λ k now reason. store-Keeps _ (release_claim-Acts k now reason);
      lookup = lookup_law x.idempotency_store;
      record_result = record_law x.idempotency_store;
      consume = escrow_law x.escrow;
      claim_effect = effect_law x.effect_protector;
      acquire = world-Keeps _;
      release = λ c outcome. world-Keeps _;
      receipt_id = world-Keeps _;
      refusal_id = world-Keeps _;
      write_receipt = λ r. world-Keeps _;
      write_refusal = λ r. world-Keeps _;
    }

    -- a call of the handler, after the mark of its claim
    handler_law :
        (handler : BrokeredHandler W) (c : BrokeredCredential) (state : ActionConsumptionState)
        (started e : Edge W)
        → (on_store (claim_request sha256_hex request) started).0 ≡ ok (some state)
        → Spent (Accounted key) (store_protector sha256_hex) (at_edge x) request state e
        → Accounted key (noting sha256_hex handler request c e).1
    unfolding noting store_protector
    handler_law handler c state started e gained spent =
        let (built, same, held) =
          claim_request-built sha256_hex request started.store (some state) gained in
        let k = row_key state in
        let now = request.context.now in
        let before = spent.before in
        let kept = acted before _ (mark_consumed-Acts k now before.store) spent.kept_before in
        let open_before = fresh k now before.store spent.kept_before.0 spent.marked in
        let spent_after =
          mark_consumed-consumed k now before.store spent.kept_before.0 spent.marked in
        rw same (
          rw spent.after (
            rw (← (eq_iff k built).0 held) (
              noted k before (mark_consumed k now before.store).1 kept open_before spent_after
                spent.kept_before.1 (handler request c before.world).1)))

module _ {W : Type 0} (sha256_hex : Json → Option String) (key : String) where
  step-Accounted :
      (s : Step W) (e : Edge W)
      → fails_closed s ≡ true
      → Accounted key e
      → Accounted key (step sha256_hex s e)
  unfolding step
  step-Accounted (outside call) e closed h =
      acted key e (perform call e.store).1 (perform-Acts call e.store) h
  step-Accounted (execution x request handler decision) e closed h =
      let at_hand : x.fail_open ≡ false = ground arith in
      rw at_hand (
        handler_only_when_spent (Accounted key) (store_protector sha256_hex) (at_edge x) request
          (noting sha256_hex handler) decision (laws key sha256_hex x request)
          (claims_state x request)
          (λ c state started t _ _ gained spent.
            handler_law key sha256_hex x request handler c state started t gained spent)
          e h)
    where
      claims_state :
          (x : ProtectedExecutor W) (request : ProtectedExecutionRequest) (e : Edge W)
          (o : Option ActionConsumptionState)
          → (on_store {W = W} (claim_request sha256_hex request) e).0 ≡ ok o
          → is_some o ≡ true
      claims_state x request e none h =
          let (_, _, held) = claim_request-built sha256_hex request e.store none h in cc held
      claims_state x request e (some state) h = refl

  steps-Accounted :
      (steps : List (Step W)) (e : Edge W)
      → all fails_closed steps ≡ true
      → Accounted key e
      → Accounted key (run_steps sha256_hex steps e)
  unfolding run_steps
  steps-Accounted [] e closed h = h
  steps-Accounted (s ∷ rest) e closed h =
      steps-Accounted rest (step sha256_hex s e) (ground arith)
        (step-Accounted s e (ground arith) h)

  -- Whatever the sequence of executions at one edge, by any executors that fail closed, with any
  -- collaborators, over the relational replay store, and of calls of that store by others between
  -- them, a handler is called at most once for a replay key, if the table has its primary key and
  -- no handler was called for the key before.
  pub handled_at_most_once :
      (steps : List (Step W)) (e : Edge W)
      → all fails_closed steps ≡ true
      → IsKeyed row_key e.store.action_consumption
      → count (λ k. k == key) e.handled ≡ 0
      → count (λ k. k == key) (run_steps sha256_hex steps e).handled ≤ 1
  handled_at_most_once steps e closed keyed none_yet =
      elim (steps-Accounted steps e closed (keyed, inl none_yet)).1 [
        | inl never ↦ omega (arith, never)
        | inr (once, done) ↦ omega (arith, once)
      ]
