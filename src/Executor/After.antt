-- ===== src/Executor/After.antt =====
-- What follows the handler, or a refusal, or another exception
-- (actenon/execution/protected_executor.py) keeps what the collaborators keep.
use actenon_kernel.Prelude.{Bool, Option, String, false, if◌then◌else◌, none, refl, some, true}
use actenon_kernel.Json.{Fields, Json, get, or_empty}
use actenon_kernel.Core.Refusal.{Refusal, Result, ok, pure, raised, refuse, refused}
use actenon_kernel.Core.Time.{Time}
use actenon_kernel.Contracts.{ExecutionResult, ProtectedExecutionRequest}
use actenon_kernel.Receipts.{create_from_exception}
use actenon_kernel.Credentials.{BrokeredCredential}
use actenon_kernel.Effects.{EffectProtector, EffectReference}
use actenon_kernel.Replay.{ActionConsumptionState}
use actenon_kernel.Executor.Model.{
  IdempotencyStore, Locals, ProtectedExecutor, ReplayProtector, Session,
}
use actenon_kernel.Executor.Evidence.{check_evidence, committed_evidence, evidence_in}
use actenon_kernel.Executor.Attempt.{record_operation, settle_success}
use actenon_kernel.Executor.Run.{
  after_exception, after_refusal, consume_quietly, release_credential, release_replay_claim, settle,
  write_refused,
}
use actenon_kernel.Executor.Rules.{
  Each, Holds, Keeps, Preserves, answer-Keeps, assign-Keeps, bind-Keeps, pure-Keeps, quietly-Keeps,
  refuse-Keeps, refused_receipt-Keeps, within-Keeps,
}
use actenon_kernel.Executor.Keeps.{mark-Keeps, write_execution-Keeps}

module _ {E : Type 0} {I : E → Type 0} (x : ProtectedExecutor E)
    (request : ProtectedExecutionRequest) (laws : Preserves I x request) where
  record_operation-Keeps :
      (d : Option (IdempotencyStore E)) (p : Option (EffectProtector E)) (id : Option Json)
      (payload : Option Fields)
      → Each
          (λ d.
            (id : Json) (hash : String) (payload : Option Fields)
            → Keeps I (d.record_result id hash payload))
          d
      → Keeps I (record_operation x request d p id payload)
  record_operation-Keeps (some d) none (some id) payload law = law id _ payload
  record_operation-Keeps (some d) none none payload law = pure-Keeps tt
  record_operation-Keeps (some d) (some p) id payload law = pure-Keeps tt
  record_operation-Keeps none p id payload law = pure-Keeps tt

  pub success-Keeps :
      (state : Option ActionConsumptionState) (c : BrokeredCredential) (payload : Option Fields)
      → Keeps (Holds I state) (settle_success x request c payload)
  unfolding settle_success
  success-Keeps state c payload = record {
    kept = λ s.
        (within-Keeps I state _ (
            bind-Keeps _ _ (laws.release c _) λ _.
              bind-Keeps _ _ (write_execution-Keeps x request laws _ _) λ receipt.
                bind-Keeps _ _
                  (record_operation-Keeps x.idempotency_store x.effect_protector _ payload
                    laws.record_result)
                  λ _. pure-Keeps _)).kept
          s;
  }

  pub evidence-Keeps :
      (state : Option ActionConsumptionState) (r : Option EffectReference) (payload : Option Fields)
      → Keeps (Holds I state) (check_evidence x r payload)
  unfolding check_evidence
  evidence-Keeps state none payload = pure-Keeps tt
  evidence-Keeps state (some r) payload =
      committed (evidence_in x r (get (or_empty payload) "effect_evidence"))
    where
      judged :
          (b : Bool) (r : Refusal)
          → Keeps (Holds I state) (if b then pure tt else refuse {A = Unit {0}} r)
      judged true r = pure-Keeps tt
      judged false r = refuse-Keeps r

      committed : (o : Option Fields) → Keeps (Holds I state) (committed_evidence x o)
      committed none = refuse-Keeps _
      committed (some evidence) =
          bind-Keeps _ _ (assign-Keeps I state _ (λ l. refl)) λ _. judged _ _

  pub write_refused-Keeps : (exc : Refusal) (l : Locals) → Keeps I (write_refused x request exc l)
  unfolding write_refused
  write_refused-Keeps exc l = bind-Keeps _ _ laws.refusal_id λ i.
      bind-Keeps _ _
        (refused_receipt-Keeps x.outcomes.domain x.outcomes.receipt_id_factory laws.receipt_id
          (x.message exc) request.intent request.context
          (create_from_exception i exc request.context.now (some request.intent) request.context
            (some request.pccb.pccb_id) request.pccb.escrow_id (some request.pccb.action_hash)))
        λ created. bind-Keeps _ _ (answer-Keeps _) λ receipt.
          bind-Keeps _ _ (laws.write_refusal _)
            λ _. bind-Keeps _ _ (laws.write_receipt _) λ _. pure-Keeps _

  release_credential-Keeps :
      (c : Option BrokeredCredential) (outcome : Fields)
      → Keeps I (release_credential x request c outcome)
  release_credential-Keeps none outcome = pure-Keeps tt
  release_credential-Keeps (some c) outcome = quietly-Keeps _ (laws.release c outcome)

  release_claim-Keeps :
      (p : Option (ReplayProtector E)) (state : Option ActionConsumptionState) (done : Bool)
      (reason : String)
      → Each
          (λ p.
            (key : String) (now : Time) (reason : String)
            → Keeps I (p.release_claim key now reason))
          p
      → Keeps I (release_replay_claim x request p state done reason)
  release_claim-Keeps none state done reason law = pure-Keeps tt
  release_claim-Keeps (some p) none done reason law = pure-Keeps tt
  release_claim-Keeps (some p) (some state) true reason law = pure-Keeps tt
  release_claim-Keeps (some p) (some state) false reason law = quietly-Keeps _ (law _ _ reason)

  consume_quietly-Keeps :
      (state : Option ActionConsumptionState) (done : Bool)
      → Keeps I (consume_quietly x request state done)
  consume_quietly-Keeps state true = pure-Keeps tt
  consume_quietly-Keeps none false = pure-Keeps tt
  consume_quietly-Keeps (some state) false =
      quietly-Keeps _
        (mark-Keeps x request laws x.replay_protector (some state) request.context.now laws.mark)

  pub settle-Keeps :
      (r : Result ExecutionResult) (s : Session E) → I s.env → I (settle x request r s).1
  unfolding settle after_refusal after_exception
  settle-Keeps (ok result) s h = h
  settle-Keeps (refused exc) s h =
      (bind-Keeps _ _ (release_credential-Keeps s.locals.brokered_credential _) λ _.
          bind-Keeps _ _
            (release_claim-Keeps x.replay_protector s.locals.replay_state s.locals.replay_consumed _
              laws.release_claim)
            λ _. write_refused-Keeps _ s.locals).kept
        s.env h
  settle-Keeps raised s h =
      (bind-Keeps _ _ (release_credential-Keeps s.locals.brokered_credential _) λ _.
          bind-Keeps _ _ (consume_quietly-Keeps s.locals.replay_state s.locals.replay_consumed)
            λ _. write_refused-Keeps _ s.locals).kept
        s.env h
