-- ===== src/Executor/Safety.antt =====
-- `ProtectedExecutor.execute` as a whole: a predicate that the collaborators and an authorised
-- handler keep.
use actenon_kernel.Prelude.{Bool-cases, Option, inl, inr, is_some, none, refl, some, true, ◌≡◌}
use actenon_kernel.Json.{Items, Json, get}
use actenon_kernel.Core.Refusal.{Exec, Result, continue, is_ok, ok, raised, refused, ◌>>=◌, ◌>>◌}
use actenon_kernel.Contracts.{PolicyDecision, ProtectedExecutionRequest, allowed}
use actenon_kernel.Credentials.{BrokeredCredential}
use actenon_kernel.Effects.{EffectProtector}
use actenon_kernel.Replay.{ActionConsumptionState}
use actenon_kernel.Verifier.{verify}
use actenon_kernel.Executor.Model.{
  BrokeredHandler, ProtectedExecutor, ReplayProtector, Session, assign, no_locals, within,
}
use actenon_kernel.Executor.Body.{
  check_effect_extension, check_policy, claim_replay, claimed_session, operation_of, or_unavailable,
  policy_refusal, refusal_by, unmet,
}
use actenon_kernel.Executor.Attempt.{attempt, check_operation}
use actenon_kernel.Executor.Run.{execute}
use actenon_kernel.Executor.Rules.{Preserves}
use actenon_kernel.Executor.After.{settle-Keeps}
use actenon_kernel.Executor.Guarded.{Spent, fail_closed, operation-Keeps, permits}

module _ {E : Type 0} (I : E → Type 0) (x : ProtectedExecutor E) (decision : Option PolicyDecision)
    {A : Type 0} (f : Unit {0} → Exec (Session E) A) (s : Session E) where
  -- a decision that does not permit ends the chain
  refusal_then : (d : PolicyDecision) → I s.env → I (continue (policy_refusal d) f s).1.env
  unfolding policy_refusal
  refusal_then d h = go (unmet d.rule_evaluations)
    where
      go :
          (o : Option Items)
          → I
              (continue
                (elim o [ none ↦ raised | some requirements ↦ refused (refusal_by d requirements) ])
                f
                s).1.env
      go none = h
      go (some requirements) = h

  pub policy_then :
      I s.env
      → (permits decision ≡ true → I (f tt s).1.env)
      → I ((check_policy x decision >>= f) s).1.env
  unfolding ◌>>=◌
  policy_then h k = go decision k
    where
      go :
          (d : Option PolicyDecision)
          → (permits d ≡ true → I (f tt s).1.env)
          → I (continue (check_policy x d s).0 f (check_policy x d s).1).1.env
      go none k = k refl
      go (some d) k = elim (Bool-cases (allowed d)) [
        | inl a ↦ rw a (k a)
        | inr b ↦ rw b (refusal_then d h)
      ]

  pub extension_then :
      (p : Option (EffectProtector E)) (o : Option Json)
      → I s.env
      → I (f tt s).1.env
      → I ((check_effect_extension x p o >>= f) s).1.env
  unfolding ◌>>=◌
  extension_then none none h k = k
  extension_then none (some v) h k = h
  extension_then (some p) o h k = k

module _ {E : Type 0} (I : E → Type 0) (protector : ReplayProtector E) (base : ProtectedExecutor E)
    (request : ProtectedExecutionRequest) (handler : BrokeredHandler E)
    (decision : Option PolicyDecision) where
  abbrev x : ProtectedExecutor E
  x = fail_closed protector base

  module _ (laws : Preserves I x request)
      (claims : (e : E) (o : Option ActionConsumptionState)
        → (protector.claim_request request e).0 ≡ ok o
        → is_some o ≡ true)
      (authorised : (c : BrokeredCredential) (state : ActionConsumptionState) (started e : E)
        → is_ok (verify base.proof_verifier request.intent request.pccb request.context) ≡ true
        → permits decision ≡ true
        → (protector.claim_request request started).0 ≡ ok (some state)
        → Spent I protector base request state e
        → I (handler request c e).1) where
    claimed_then :
        (e : E)
        → is_ok (verify base.proof_verifier request.intent request.pccb request.context) ≡ true
        → permits decision ≡ true
        → I e
        → I
            ((claimed_session x request
                >> check_operation x request handler x.idempotency_store x.effect_protector
                    (operation_of request.intent))
              (record { env = e; locals = no_locals })).1.env
    unfolding ◌>>=◌ claimed_session within assign claim_replay
    claimed_then e accepted permitted h =
        go (protector.claim_request request e).0 refl ((laws.claim.kept) e h)
      where
        go :
            (r : Result (Option ActionConsumptionState))
            → (protector.claim_request request e).0 ≡ r
            → I (protector.claim_request request e).1
            → I
                (let t : Session E = record {
                  env = (protector.claim_request request e).1;
                  locals = no_locals;
                } in
                  let claimed =
                    continue
                      (or_unavailable x "claim" none r)
                      (λ state. assign (λ l. record l { replay_state = state }))
                      t in
                  continue claimed.0
                    (λ _.
                      check_operation x request handler x.idempotency_store x.effect_protector
                        (operation_of request.intent))
                    claimed.1).1.env
        go (ok none) same k = absurd (cc (claims e none same))
        go (ok (some state)) same k =
            ((operation-Keeps I protector base request laws state handler
                (λ c t. authorised c state e t accepted permitted same) x.idempotency_store
                x.effect_protector (operation_of request.intent) laws.lookup).kept
              _ (k, refl)).0
        go (refused r) same k = k
        go raised same k = k

    attempt-kept :
        (e : E)
        → I e
        → I (attempt x request handler decision (record { env = e; locals = no_locals })).1.env
    unfolding ◌>>=◌ attempt
    attempt-kept e h =
        go (verify base.proof_verifier request.intent request.pccb request.context) refl
      where
        s : Session E
        s = record { env = e; locals = no_locals }

        go :
            (r : Result (Unit {0}))
            → verify base.proof_verifier request.intent request.pccb request.context ≡ r
            → I
                (continue r
                  (λ _.
                    check_policy x decision
                    >> (check_effect_extension x x.effect_protector
                          (get request.pccb.extensions "effect")
                        >> (claimed_session x request
                            >> check_operation x request handler x.idempotency_store
                                x.effect_protector
                                (operation_of request.intent))))
                  s).1.env
        go (ok tt) same = policy_then I x decision _ s h λ permitted.
            extension_then I x decision _ s x.effect_protector
              (get request.pccb.extensions "effect") h (claimed_then e (rw same refl) permitted h)
        go (refused r) same = h
        go raised same = h

    -- With a replay store that fails closed, the handler of `execute` is called only after the
    -- proof has verified, a given decision allows, the claim of the request has returned and its
    -- mark as consumed has just returned: a predicate of the environment that every other
    -- collaborator keeps, and that the handler keeps from those states, holds after `execute`, if a
    -- claim that returns has a state.
    pub handler_only_when_spent : (e : E) → I e → I (execute x request handler decision e).1
    unfolding execute
    handler_only_when_spent e h =
        settle-Keeps x request laws _
          (attempt x request handler decision (record { env = e; locals = no_locals })).1
          (attempt-kept e h)
