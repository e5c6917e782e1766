-- ===== src/Middleware/Guarded.antt =====
-- When `ProtectedEndpointMiddleware.execute` (actenon/verifier/middleware.py) calls its handler.
use actenon_kernel.Prelude.{
  Bool-cases, Option, String, [], contains, inl, inr, none, refl, some, string_eq, true, ◌∷◌, ◌≡◌,
}
use actenon_kernel.Json.{Fields, Json, get}
use actenon_kernel.Core.Refusal.{Exec, Refusal, Result, continue, is_ok, ok, raised, refused, ◌>>=◌}
use actenon_kernel.Core.Time.{Time}
use actenon_kernel.Contracts.{ExecutionResult, ProtectedExecutionRequest, Receipt, RefusalRecord}
use actenon_kernel.Receipts.{create_from_exception}
use actenon_kernel.Replay.{ActionConsumptionState}
use actenon_kernel.Escrow.{EscrowRecord, Presentation}
use actenon_kernel.Verifier.{verify}
use actenon_kernel.Executor.Rules.{
  Keeps, bind-Keeps, execution_receipt-Keeps, pure-Keeps, refused_receipt-Keeps, then-Keeps,
}
use actenon_kernel.Middleware.Endpoint.{
  Handler, ProtectedEndpointMiddleware, WithClaim, calling, check_no_effect, claim_state, conclude,
  endpoint_attempt, endpoint_execute, endpoint_settle, kept_state, mark_failed, mark_state,
  presentation, release_refused, required_escrow, write_endpoint_refusal,
}

-- The laws of the collaborators of an endpoint that serves one request.
pub record EndpointLaws {E : Type 0} (I : E → Type 0) (x : ProtectedEndpointMiddleware E)
    (request : ProtectedExecutionRequest) : Type 0 where
  pub claim : Keeps I (x.replay_protector.claim_request request)
  pub mark : (key : String) (now : Time) → Keeps I (x.replay_protector.mark_consumed key now)
  pub release :
      (key : String) (now : Time) (reason : String)
      → Keeps I (x.replay_protector.release_claim key now reason)
  pub consume : (a : Presentation) → Keeps I (x.consume a)
  pub receipt_id : Keeps I x.outcomes.receipt_id_factory
  pub refusal_id : Keeps I x.outcomes.refusal_id_factory
  pub write_receipt : (r : Receipt) → Keeps I (x.outcomes.write_receipt r)
  pub write_refusal : (r : RefusalRecord) → Keeps I (x.outcomes.write_refusal r)

module _ {E : Type 0} (I : E → Type 0) (x : ProtectedEndpointMiddleware E)
    (request : ProtectedExecutionRequest) (handler : Handler E)
    (laws : EndpointLaws I x request) where
  abbrev At : WithClaim E → Type 0
  At s = I s.0

  calling-Keeps : {A : Type 0} (m : Exec E A) → Keeps I m → Keeps At (calling m)
  unfolding calling
  calling-Keeps m k = record { kept = λ s h. k.kept s.0 h }

  mark_state-Keeps :
      (now : Time) (state : Option ActionConsumptionState)
      → Keeps I (mark_state x.replay_protector now state)
  mark_state-Keeps now none = record { kept = λ e h. h }
  mark_state-Keeps now (some state) = record {
    kept = (bind-Keeps _ _ (laws.mark state.claim.replay_key now) (λ _. pure-Keeps tt)).kept;
  }

  conclude-Keeps :
      (payload : Fields) (state : Option ActionConsumptionState)
      → Keeps I (conclude x request payload state)
  unfolding conclude
  conclude-Keeps payload state = bind-Keeps _ _ (mark_state-Keeps request.context.now state) λ _.
      bind-Keeps _ _
        (execution_receipt-Keeps x.outcomes.domain x.outcomes.receipt_id_factory laws.receipt_id
          request.intent request.context request.pccb.pccb_id request.pccb.escrow_id (some payload)
          (some request.pccb.action_hash))
        λ r. bind-Keeps _ _ (laws.write_receipt _) λ _. pure-Keeps _

  claim_state-Keeps : Keeps At (claim_state x request)
  unfolding claim_state
  claim_state-Keeps = record {
    kept = λ s h. go s (x.replay_protector.claim_request request s.0).0 (laws.claim.kept s.0 h);
  }
    where
      go :
          (s : WithClaim E) (r : Result (Option ActionConsumptionState))
          → I (x.replay_protector.claim_request request s.0).1
          → At (kept_state r (x.replay_protector.claim_request request s.0).1 s.1).1
      go s (ok state) h = h
      go s (refused r) h = h
      go s raised h = h

  write-Keeps : (exc : Refusal) → Keeps I (write_endpoint_refusal x request exc)
  unfolding write_endpoint_refusal
  write-Keeps exc = bind-Keeps _ _ laws.refusal_id λ i.
      bind-Keeps _ _
        (refused_receipt-Keeps x.outcomes.domain x.outcomes.receipt_id_factory laws.receipt_id
          (x.message exc) request.intent request.context
          (create_from_exception i exc request.context.now (some request.intent) request.context
            (some request.pccb.pccb_id) request.pccb.escrow_id (some request.pccb.action_hash)))
        λ r.
          bind-Keeps _ _ (laws.write_refusal _)
            λ _. bind-Keeps _ _ (laws.write_receipt _) λ _. pure-Keeps _

  release_refused-Keeps :
      (exc : Refusal) (state : Option ActionConsumptionState)
      → Keeps I (release_refused x request exc state)
  release_refused-Keeps exc none = record { kept = λ e h. h }
  release_refused-Keeps exc (some state) = record {
    kept = λ e h.
        elim (Bool-cases
          (contains ⦃e = string_eq⦄ ("escrow" ∷ "authorization" ∷ "proof" ∷ []) exc.category)) [
            | inl in_ ↦ rw in_ (
                (bind-Keeps _ _
                    (laws.release state.claim.replay_key request.context.now exc.refusal_code)
                    (λ _. pure-Keeps tt)).kept
                  e h)
            | inr out ↦ rw out h
          ];
  }

  settle-Keeps :
      (r : Result ExecutionResult) (s : WithClaim E) → At s → I (endpoint_settle x request r s).1
  unfolding endpoint_settle
  settle-Keeps (ok result) (e, state) h = h
  settle-Keeps (refused exc) (e, state) h =
      (bind-Keeps _ _ (release_refused-Keeps exc state) (λ _. write-Keeps exc)).kept e h
  settle-Keeps raised (e, none) h =
      then-Keeps (mark_failed x request none) _ e h (λ _. write-Keeps _)
  settle-Keeps raised (e, some state) h =
      (bind-Keeps _ _ (mark_state-Keeps request.context.now (some state)) (λ _. write-Keeps _)).kept
        e h

  -- after the escrow's answer
  consumed_then :
      (id : String)
      → ((c : EscrowRecord) (before : E)
          → I before
          → (x.consume (presentation x request id) before).0 ≡ ok c
          → I (handler request (x.consume (presentation x request id) before).1).1)
      → {A : Type 0} (f : Fields → Exec (WithClaim E) A)
      → ((payload : Fields) → Keeps At (f payload))
      → Keeps At
          (calling (x.consume (presentation x request id)) >>= λ _. calling (handler request) >>= f)
  unfolding ◌>>=◌ calling
  consumed_then id law {A} f k = record {
    kept = λ s h. go s h (x.consume (presentation x request id) s.0).0 refl;
  }
    where
      go :
          (s : WithClaim E)
          → At s
          → (r : Result EscrowRecord) → (x.consume (presentation x request id) s.0).0 ≡ r
          → At
              (continue r
                (λ _. calling (handler request) >>= f)
                ((x.consume (presentation x request id) s.0).1, s.1)).1
      go s h (ok c) e =
          then-Keeps {P = At} (calling (handler request)) f
            ((x.consume (presentation x request id) s.0).1, s.1) (law c s.0 h e) k
      go s h (refused r) e = (laws.consume _).kept s.0 h
      go s h raised e = (laws.consume _).kept s.0 h

  module _
      (authorised : (id : String) (c : EscrowRecord) (before : E)
        → is_ok (verify x.proof_verifier request.intent request.pccb request.context) ≡ true
        → request.pccb.escrow_id ≡ some id
        → I before
        → (x.consume (presentation x request id) before).0 ≡ ok c
        → I (handler request (x.consume (presentation x request id) before).1).1) where
    -- what follows the reference of the escrow
    abbrev tail : String → Exec (WithClaim E) ExecutionResult
    tail id = claim_state x request >>= λ _.
        calling (x.consume (presentation x request id)) >>= λ _.
        calling (handler request) >>= λ payload. λ s. calling (conclude x request payload s.1) s

    tail-Keeps :
        (id : String)
        → is_ok (verify x.proof_verifier request.intent request.pccb request.context) ≡ true
        → request.pccb.escrow_id ≡ some id
        → Keeps At (tail id)
    tail-Keeps id accepted same = bind-Keeps _ _ claim_state-Keeps λ _.
        consumed_then id (λ c before h done. authorised id c before accepted same h done)
          (λ payload s. calling (conclude x request payload s.1) s)
          λ payload. record { kept = λ s. (calling-Keeps _ (conclude-Keeps payload s.1)).kept s }

    escrow_case :
        (e : E)
        → I e
        → is_ok (verify x.proof_verifier request.intent request.pccb request.context) ≡ true
        → (o : Option String) → request.pccb.escrow_id ≡ o
        → At ((required_escrow x request o >>= tail) (e, none)).1
    unfolding ◌>>=◌
    escrow_case e h accepted none same = h
    escrow_case e h accepted (some id) same = (tail-Keeps id accepted same).kept (e, none) h

    effect_case :
        (e : E)
        → I e
        → is_ok (verify x.proof_verifier request.intent request.pccb request.context) ≡ true
        → (o : Option Json)
        → At
            ((check_no_effect x request o >>= λ _.
                required_escrow x request request.pccb.escrow_id >>= tail)
              (e, none)).1
    unfolding ◌>>=◌
    effect_case e h accepted none = escrow_case e h accepted request.pccb.escrow_id refl
    effect_case e h accepted (some v) = h

    attempt-kept : (e : E) → I e → At (endpoint_attempt x request handler (e, none)).1
    unfolding endpoint_attempt ◌>>=◌
    attempt-kept e h = go (verify x.proof_verifier request.intent request.pccb request.context) refl
      where
        go :
            (r : Result (Unit {0}))
            → verify x.proof_verifier request.intent request.pccb request.context ≡ r
            → At
                (continue r
                  (λ _. check_no_effect x request (get request.pccb.extensions "effect") >>= λ _.
                    required_escrow x request request.pccb.escrow_id >>= tail)
                  (e, none)).1
        go (ok tt) same = effect_case e h (rw same refl) (get request.pccb.extensions "effect")
        go (refused r) same = h
        go raised same = h

    -- The handler of `ProtectedEndpointMiddleware.execute` is called only after the proof has
    -- verified and the escrow has just consumed the record that the proof names: a predicate of the
    -- environment that every other collaborator keeps, and that the handler keeps from those
    -- states, holds after `execute`.
    pub handler_only_after_escrow : (e : E) → I e → I (endpoint_execute x request handler e).1
    unfolding endpoint_execute
    handler_only_after_escrow e h =
        settle-Keeps (endpoint_attempt x request handler (e, none)).0
          (endpoint_attempt x request handler (e, none)).1 (attempt-kept e h)
