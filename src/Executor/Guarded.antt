-- ===== src/Executor/Guarded.antt =====
-- When `ProtectedExecutor.execute` calls its handler, with a replay store that fails closed.
use actenon_kernel.Prelude.{
  Bool, Bool-cases, Option, false, inl, inr, nat_eq, none, refl, some, string_eq, true, ◌==◌, ◌≡◌,
}
use actenon_kernel.Json.{Json}
use actenon_kernel.Core.Refusal.{Exec, Result, continue, is_ok, ok, raised, refused, ◌>>=◌}
use actenon_kernel.Contracts.{PolicyDecision, ProtectedExecutionRequest, allowed}
use actenon_kernel.Credentials.{BrokeredCredential}
use actenon_kernel.Effects.{EffectProtector}
use actenon_kernel.Replay.{ActionConsumptionState}
use actenon_kernel.Executor.Model.{
  BrokeredHandler, IdempotencyStore, PriorResult, ProtectedExecutor, ReplayProtector, Session,
  assign, within,
}
use actenon_kernel.Executor.Body.{
  consumed_session, mark_replay_consumed, or_unavailable, returned_true,
}
use actenon_kernel.Executor.Attempt.{
  check_operation, proceed, replay_result, run_handler, with_prior,
}
use actenon_kernel.Executor.Rules.{
  Each, Holds, Keeps, Preserves, bind-Keeps, pure-Keeps, refuse-Keeps, then-Keeps, within-Keeps,
}
use actenon_kernel.Executor.Keeps.{
  acquired-Keeps, consumed-Keeps, escrow-Keeps, ownership-Keeps, write_execution-Keeps,
}
use actenon_kernel.Executor.After.{evidence-Keeps, success-Keeps}

-- an executor with this replay protector, `replay_store_failure="fail_closed"`
abbrev pub fail_closed :
    {E : Type 0} → ReplayProtector E → ProtectedExecutor E → ProtectedExecutor E
fail_closed protector x = record x { replay_protector = some protector; fail_open = false }

-- a decision that is not given, or allows
abbrev pub permits : Option PolicyDecision → Bool
permits none = true
permits (some d) = allowed d

module _ {E : Type 0} (I : E → Type 0) (protector : ReplayProtector E) (base : ProtectedExecutor E)
    (request : ProtectedExecutionRequest) where
  abbrev x : ProtectedExecutor E
  x = fail_closed protector base

  -- the mark of a claim, at the time of the request
  abbrev pub mark : ActionConsumptionState → Exec E (Option ActionConsumptionState)
  mark state = protector.mark_consumed state.claim.replay_key request.context.now

  -- An environment in which the claim has just been marked.
  pub record Spent (state : ActionConsumptionState) (e : E) : Type 0 where
    pub before : E
    pub kept_before : I before
    pub marked : is_ok (mark state before).0 ≡ true
    pub after : e ≡ (mark state before).1

  module _ (laws : Preserves I x request) (state : ActionConsumptionState) where
    -- after the mark, the rest of the chain runs in a spent environment
    consumed_then :
        {A : Type 0} (f : Unit {0} → Exec (Session E) A)
        → ((s : Session E)
            → Holds I (some state) s
            → Spent state s.env
            → Holds I (some state) (f tt s).1)
        → Keeps (Holds I (some state)) (consumed_session x request >>= f)
    unfolding ◌>>=◌ consumed_session within assign mark_replay_consumed
    consumed_then {A} f k = record { kept = λ s h. go s.locals.replay_state h.1 s h }
      where
        ending :
            (r : Result (Option ActionConsumptionState)) (s : Session E) (e : E)
            → Holds I (some state) s
            → I e
            → (is_ok r ≡ true → Spent state e)
            → Holds I
                (some state)
                (continue
                  (continue
                    (or_unavailable x "consume" false (returned_true r))
                    (λ done. assign (λ l. record l { replay_consumed = done }))
                    (record s { env = e })).0
                  f
                  (continue
                    (or_unavailable x "consume" false (returned_true r))
                    (λ done. assign (λ l. record l { replay_consumed = done }))
                    (record s { env = e })).1).1
        ending (ok _) s e h kept spent = k _ (kept, h.1) (spent refl)
        ending (refused _) s e h kept spent = (kept, h.1)
        ending raised s e h kept spent = (kept, h.1)

        go :
            (o : Option ActionConsumptionState)
            → o ≡ some state
            → (s : Session E) → Holds I (some state) s
            → Holds I
                (some state)
                (continue
                  (continue
                    (mark_replay_consumed x (some protector) o request.context.now s.env).0
                    (λ done. assign (λ l. record l { replay_consumed = done }))
                    (record s {
                      env = (mark_replay_consumed x (some protector) o request.context.now s.env).1;
                    })).0
                  f
                  (continue
                    (mark_replay_consumed x (some protector) o request.context.now s.env).0
                    (λ done. assign (λ l. record l { replay_consumed = done }))
                    (record s {
                      env = (mark_replay_consumed x (some protector) o request.context.now s.env).1;
                    })).1).1
        go o e s h = rw e (
            ending (mark state s.env).0 s (mark state s.env).1 h
              ((laws.mark state.claim.replay_key request.context.now).kept s.env h.0)
              (λ done. record { before = s.env; kept_before = h.0; marked = done; after = refl }))

    module _ (handler : BrokeredHandler E)
        (handler_law : (c : BrokeredCredential) (e : E)
          → Spent state e
          → I (handler request c e).1) where
      run_handler-kept :
          (c : BrokeredCredential) (s : Session E)
          → Holds I (some state) s
          → Spent state s.env
          → Holds I (some state) (run_handler x request handler c s).1
      unfolding run_handler assign ◌>>=◌ within
      run_handler-kept c s h spent =
          then-Keeps (within (handler request c)) _
            (record s { locals = record s.locals { handler_started = true } }) (within_handler, h.1)
            λ payload.
              bind-Keeps _ _
                (record {
                  kept = λ t.
                      (evidence-Keeps x request laws (some state) t.locals.effect_reference
                          payload).kept
                        t;
                })
                λ _. pure-Keeps payload
        where
          within_handler : I (handler request c s.env).1
          within_handler = handler_law c s.env spent

      -- what follows the idempotency check
      proceed-Keeps : Keeps (Holds I (some state)) (proceed x request handler)
      unfolding proceed
      proceed-Keeps =
          bind-Keeps _ _
            (escrow-Keeps x request laws (some state) x.escrow request.pccb.escrow_id laws.consume)
            λ _.
              bind-Keeps _ _
                (ownership-Keeps x request laws (some state) x.effect_protector laws.claim_effect)
                λ _. bind-Keeps _ _ (acquired-Keeps x request laws (some state)) λ c.
                  consumed_then _ λ s h spent.
                    then-Keeps (run_handler x request handler c) _ s (run_handler-kept c s h spent)
                      λ payload. success-Keeps x request laws (some state) c payload

      prior-Keeps :
          (id : Json) (prior : Option PriorResult)
          → Keeps (Holds I (some state)) (with_prior x request handler id prior)
      unfolding with_prior replay_result
      prior-Keeps id none = proceed-Keeps
      prior-Keeps id (some prior) =
          elim (Bool-cases (prior.action_hash == request.pccb.action_hash.value)) [
            | inr other ↦ rw other (refuse-Keeps _)
            | inl same ↦ rw same (
                bind-Keeps _ _ (consumed-Keeps x request laws (some state)) λ _.
                  bind-Keeps _ _
                    (within-Keeps I (some state) _
                      (write_execution-Keeps x request laws prior.result none))
                    λ _. pure-Keeps _)
          ]

      pub operation-Keeps :
          (d : Option (IdempotencyStore E)) (p : Option (EffectProtector E)) (id : Option Json)
          → Each (λ d. (id : Json) → Keeps I (d.lookup id)) d
          → Keeps (Holds I (some state)) (check_operation x request handler d p id)
      unfolding check_operation
      operation-Keeps (some d) none (some id) law =
          bind-Keeps _ _ (within-Keeps I (some state) _ (law id)) λ prior. prior-Keeps id prior
      operation-Keeps (some d) none none law = proceed-Keeps
      operation-Keeps (some d) (some p) id law = proceed-Keeps
      operation-Keeps none p id law = proceed-Keeps
