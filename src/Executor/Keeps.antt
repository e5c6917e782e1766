-- ===== src/Executor/Keeps.antt =====
-- The calls around the handler (actenon/execution/protected_executor.py) keep what the collaborators
-- keep.
use actenon_kernel.Prelude.{
  Bool-cases, Option, String, [], inl, inr, nat_eq, none, refl, some, string_eq, ◌==◌, ◌∷◌,
}
use actenon_kernel.Json.{Fields, get}
use actenon_kernel.Core.Format.{concat}
use actenon_kernel.Core.Refusal.{Exec}
use actenon_kernel.Core.Time.{Time}
use actenon_kernel.Contracts.{ProtectedExecutionRequest}
use actenon_kernel.Effects.{
  EffectProtector, EffectReference, claim_effect, claim_identified, claim_issued, claim_referenced,
  computed_identity, reference_from_dict,
}
use actenon_kernel.Replay.{ActionConsumptionState}
use actenon_kernel.Escrow.{EscrowRecord, Presentation}
use actenon_kernel.Executor.Model.{ProtectedExecutor, ReplayProtector}
use actenon_kernel.Executor.Body.{
  acquired, claim_ownership, claim_replay, consume_escrow, consumed_session, mark_replay_consumed,
}
use actenon_kernel.Executor.Attempt.{write_execution}
use actenon_kernel.Executor.Rules.{
  Each, Holds, Keeps, Preserves, assign-Keeps, bind-Keeps, execution_receipt-Keeps, keeps_rules,
  pure-Keeps, within-Keeps,
}

module _ {E : Type 0} {I : E → Type 0} (x : ProtectedExecutor E)
    (request : ProtectedExecutionRequest) (laws : Preserves I x request) where
  pub claim_replay-Keeps :
      (p : Option (ReplayProtector E))
      → Each (λ p. Keeps I (p.claim_request request)) p
      → Keeps I (claim_replay x p request)
  unfolding claim_replay
  claim_replay-Keeps none law = record { kept = λ e h. h }
  claim_replay-Keeps (some p) law = record { kept = law.kept }

  pub mark-Keeps :
      (p : Option (ReplayProtector E)) (state : Option ActionConsumptionState) (now : Time)
      → Each (λ p. (key : String) (now : Time) → Keeps I (p.mark_consumed key now)) p
      → Keeps I (mark_replay_consumed x p state now)
  unfolding mark_replay_consumed
  mark-Keeps none state now law = record { kept = λ e h. h }
  mark-Keeps (some p) none now law = record { kept = λ e h. h }
  mark-Keeps (some p) (some state) now law = record { kept = (law state.claim.replay_key now).kept }

  pub consumed-Keeps :
      (state : Option ActionConsumptionState) → Keeps (Holds I state) (consumed_session x request)
  unfolding consumed_session
  consumed-Keeps state = record {
    kept = λ s.
        (bind-Keeps _ _
            (within-Keeps I state _
              (mark-Keeps x.replay_protector s.locals.replay_state request.context.now laws.mark))
            (λ b. assign-Keeps I state _ (λ l. refl))).kept
          s;
  }

  pub escrow-Keeps :
      (state : Option ActionConsumptionState) (c : Option (Presentation → Exec E EscrowRecord))
      (id : Option String)
      → Each (λ c. (a : Presentation) → Keeps I (c a)) c
      → Keeps (Holds I state) (consume_escrow x request c id)
  escrow-Keeps state none id law = search keeps_rules
  escrow-Keeps state (some c) none law = search keeps_rules
  escrow-Keeps state (some c) (some id) law = search (law, keeps_rules)

  pub acquired-Keeps :
      (state : Option ActionConsumptionState) → Keeps (Holds I state) (acquired x request)
  unfolding acquired
  acquired-Keeps state =
      bind-Keeps _ _ (within-Keeps I state _ laws.acquire)
        λ c. bind-Keeps _ _ (assign-Keeps I state _ (λ l. refl)) λ _. pure-Keeps c

  pub write_execution-Keeps :
      (payload evidence : Option Fields) → Keeps I (write_execution x request payload evidence)
  unfolding write_execution
  write_execution-Keeps payload evidence =
      bind-Keeps _ _
        (execution_receipt-Keeps x.outcomes.domain x.outcomes.receipt_id_factory laws.receipt_id
          request.intent request.context request.pccb.pccb_id request.pccb.escrow_id payload
          (some request.pccb.action_hash))
        λ receipt. bind-Keeps _ _ (laws.write_receipt _) λ _. pure-Keeps _

  pub claim_effect-Keeps :
      (p : EffectProtector E)
      → ((r : EffectReference) → Keeps I (p.claim r request))
      → Keeps I (claim_effect p request)
  unfolding claim_effect claim_referenced claim_issued claim_identified
  claim_effect-Keeps p law = record {
    kept = λ e h.
        referenced (reference_from_dict p.effect_profile (get request.pccb.extensions "effect"))
          (p.authority_issuer request.pccb.extensions) e h;
  }
    where
      identified :
          (r : EffectReference) (o : Option String) (e : E)
          → I e
          → I (claim_identified p r request o e).1
      identified r none e h = h
      identified r (some id) e h = elim (Bool-cases (r.effect_id == id)) [
        | inl same ↦ rw same ((law r).kept e h)
        | inr other ↦ rw other h
      ]

      issued :
          (r : EffectReference) (issuer : Option String) (e : E)
          → I e
          → I (claim_issued p request r issuer e).1
      issued r none e h = h
      issued r (some issuer) e h =
          elim (Bool-cases
            (issuer == concat (request.pccb.issuer.type ∷ ":" ∷ request.pccb.issuer.id ∷ []))) [
              | inr foreign ↦ rw foreign h
              | inl trusted ↦ rw trusted (identified r (computed_identity p request) e h)
            ]

      referenced :
          (o : Option EffectReference) (issuer : Option (Option String)) (e : E)
          → I e
          → I (claim_referenced p request o issuer e).1
      referenced none issuer e h = h
      referenced (some r) none e h = h
      referenced (some r) (some issuer) e h =
          elim (Bool-cases (r.owner_attempt_id == request.intent.intent_id)) [
            | inr other ↦ rw other h
            | inl same ↦ rw same (issued r issuer e h)
          ]

  pub ownership-Keeps :
      (state : Option ActionConsumptionState) (p : Option (EffectProtector E))
      → Each (λ p. (r : EffectReference) → Keeps I (p.claim r request)) p
      → Keeps (Holds I state) (claim_ownership x request p)
  ownership-Keeps state none law = pure-Keeps tt
  ownership-Keeps state (some p) law =
      bind-Keeps _ _ (within-Keeps I state _ (claim_effect-Keeps p law))
        λ r. assign-Keeps I state _ (λ l. refl)
