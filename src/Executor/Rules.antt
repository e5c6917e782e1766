-- ===== src/Executor/Rules.antt =====
-- What every call of `execute` keeps, composed: a predicate on the environment that each collaborator
-- keeps (actenon/execution/protected_executor.py).
use actenon_kernel.Prelude.{Option, String, none, some, ◌∙◌, ◌≡◌}
use actenon_kernel.Json.{Fields, Json}
use actenon_kernel.Core.Refusal.{
  Exec, Refusal, Result, answer, continue, ok, pure, raised, refuse, refused, ◌>>=◌,
}
use actenon_kernel.Core.Time.{Time}
use actenon_kernel.Contracts.{
  ActionHashSpec, ActionIntent, DynamicContextInput, ProtectedExecutionRequest, Receipt,
  RefusalRecord,
}
use actenon_kernel.Receipts.{DomainTexts, create_execution_receipt, create_refused_receipt}
use actenon_kernel.Credentials.{BrokeredCredential}
use actenon_kernel.Effects.{EffectReference}
use actenon_kernel.Replay.{ActionConsumptionState}
use actenon_kernel.Escrow.{Presentation}
use actenon_kernel.Executor.Model.{Locals, ProtectedExecutor, Session, assign, quietly, within}

-- A run of `m` from a state with `P` ends in one with `P`, whatever it answers.
pub record Keeps {S A : Type 0} (P : S → Type 0) (m : Exec S A) : Type 0 where
  pub kept : (s : S) → P s → P (m s).1

-- a law of a collaborator, if there is one
abbrev pub Each : {A : Type 0} → (A → Type 0) → Option A → Type 0
Each P none = Unit
Each P (some a) = P a

module _ {S A : Type 0} {P : S → Type 0} where
  pub pure-Keeps : (a : A) → Keeps P (pure a)
  unfolding pure
  pure-Keeps a = record { kept = λ s h. h }

  pub refuse-Keeps : (r : Refusal) → Keeps P (refuse {A = A} r)
  unfolding refuse
  refuse-Keeps r = record { kept = λ s h. h }

  pub answer-Keeps : (r : Result A) → Keeps P (answer r)
  unfolding answer
  answer-Keeps r = record { kept = λ s h. h }

  pub quietly-Keeps : (m : Exec S A) → Keeps P m → Keeps P (quietly m)
  unfolding quietly
  quietly-Keeps m k = record { kept = k.kept }

module _ {S A B : Type 0} {P : S → Type 0} where
  -- after a run that ends in `P`
  pub then-Keeps :
      (m : Exec S A) (f : A → Exec S B) (s : S)
      → P (m s).1
      → ((a : A) → Keeps P (f a))
      → P ((m >>= f) s).1
  unfolding ◌>>=◌
  then-Keeps m f s h kf = go (m s).0 (m s).1 h
    where
      go : (r : Result A) (t : S) → P t → P (continue r f t).1
      go (ok a) t h = (kf a).kept t h
      go (refused e) t h = h
      go raised t h = h

  pub bind-Keeps :
      (m : Exec S A) (f : A → Exec S B) → Keeps P m → ((a : A) → Keeps P (f a)) → Keeps P (m >>= f)
  bind-Keeps m f km kf = record { kept = λ s h. then-Keeps m f s (km.kept s h) kf }

-- a receipt is made with a call of the id factory at most
module _ {E : Type 0} {I : E → Type 0} (domain : DomainTexts) (factory : Exec E String)
    (k : Keeps I factory) where
  pub execution_receipt-Keeps :
      (intent : ActionIntent) (context : DynamicContextInput) (pccb_id : String)
      (escrow_id : Option String) (payload : Option Fields) (hash : Option ActionHashSpec)
      → Keeps I
          (create_execution_receipt domain factory intent context pccb_id escrow_id payload hash)
  unfolding create_execution_receipt
  execution_receipt-Keeps intent context pccb_id escrow_id payload hash =
      bind-Keeps _ _ (answer-Keeps _) λ texts. bind-Keeps _ _ k λ id. pure-Keeps _

  pub refused_receipt-Keeps :
      (message : String) (intent : ActionIntent) (context : DynamicContextInput)
      (refusal : RefusalRecord)
      → Keeps I (create_refused_receipt domain factory message intent context refusal)
  unfolding create_refused_receipt
  refused_receipt-Keeps message intent context refusal =
      bind-Keeps _ _ (answer-Keeps _) λ texts. bind-Keeps _ _ k λ id. pure-Keeps _

module _ {E : Type 0} (I : E → Type 0) where
  -- at the environment of a session that holds the given claim
  abbrev pub Holds : Option ActionConsumptionState → Session E → Type 0
  Holds state s = I s.env × (s.locals.replay_state ≡ state)

  pub within-Keeps :
      {A : Type 0} (state : Option ActionConsumptionState) (m : Exec E A)
      → Keeps I m
      → Keeps (Holds state) (within m)
  unfolding within
  within-Keeps state m k = record { kept = λ s h. (k.kept s.env h.0, h.1) }

  -- an assignment to another variable
  pub assign-Keeps :
      (state : Option ActionConsumptionState) (f : Locals → Locals)
      → ((l : Locals) → (f l).replay_state ≡ l.replay_state)
      → Keeps (Holds state) (assign f)
  unfolding assign
  assign-Keeps state f same = record { kept = λ s h. (h.0, same s.locals ∙ h.1) }

  -- The laws of the collaborators of an executor that serves one request.
  pub record Preserves (x : ProtectedExecutor E) (request : ProtectedExecutionRequest)
      : Type 0 where
    pub claim : Each (λ p. Keeps I (p.claim_request request)) x.replay_protector
    pub mark :
        Each
          (λ p. (key : String) (now : Time) → Keeps I (p.mark_consumed key now))
          x.replay_protector
    pub release_claim :
        Each
          (λ p.
            (key : String) (now : Time) (reason : String)
            → Keeps I (p.release_claim key now reason))
          x.replay_protector
    pub lookup : Each (λ d. (id : Json) → Keeps I (d.lookup id)) x.idempotency_store
    pub record_result :
        Each
          (λ d.
            (id : Json) (hash : String) (payload : Option Fields)
            → Keeps I (d.record_result id hash payload))
          x.idempotency_store
    pub consume : Each (λ c. (a : Presentation) → Keeps I (c a)) x.escrow
    pub claim_effect :
        Each (λ p. (r : EffectReference) → Keeps I (p.claim r request)) x.effect_protector
    pub acquire : Keeps I (x.credential_broker.acquire request.intent request.pccb request.context)
    pub release :
        (c : BrokeredCredential) (outcome : Fields)
        → Keeps I (x.credential_broker.release c outcome)
    pub receipt_id : Keeps I x.outcomes.receipt_id_factory
    pub refusal_id : Keeps I x.outcomes.refusal_id_factory
    pub write_receipt : (r : Receipt) → Keeps I (x.outcomes.write_receipt r)
    pub write_refusal : (r : RefusalRecord) → Keeps I (x.outcomes.write_refusal r)

pub ruleset keeps_rules =
    (pure-Keeps, refuse-Keeps, answer-Keeps, quietly-Keeps, bind-Keeps, within-Keeps, assign-Keeps)
