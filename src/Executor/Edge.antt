-- ===== src/Executor/Edge.antt =====
-- A protected edge: an executor whose single-use store is the relational one of actenon/replay, and
-- whose other collaborators work on a state of their own.
use actenon_kernel.Prelude.{Bool, List, Option, String, [], false, none, not, some, true, ◌∷◌}
use actenon_kernel.Json.{Json}
use actenon_kernel.Core.Refusal.{Exec, answer}
use actenon_kernel.Contracts.{PolicyDecision, ProtectedExecutionRequest}
use actenon_kernel.Effects.{EffectProtector}
use actenon_kernel.Replay.{StoreState, mark_consumed, release_claim}
use actenon_kernel.Replay.Service.{build_replay_key, claim_request}
use actenon_kernel.Replay.World.{Call, perform}
use actenon_kernel.Escrow.{EscrowRecord, Presentation}
use actenon_kernel.Executor.Model.{
  BrokeredHandler, IdempotencyStore, ProtectedExecutor, ReplayProtector,
}
use actenon_kernel.Executor.Run.{execute}

-- The state of the edge, with the replay keys of the requests that a handler was called for.
pub record Edge (W : Type 0) : Type 0 where
  pub store : StoreState
  pub handled : List String
  pub world : W

abbrev pub with_key : Option String → List String → List String
with_key none handled = handled
with_key (some key) handled = key ∷ handled

module _ {W : Type 0} where
  abbrev pub on_store : {A : Type 0} → Exec StoreState A → Exec (Edge W) A
  on_store m e = let (answer, s) = m e.store in (answer, record e { store = s })

  abbrev pub on_world : {A : Type 0} → Exec W A → Exec (Edge W) A
  on_world m e = let (answer, w) = m e.world in (answer, record e { world = w })

  -- `ReplayProtector` over a `DbApiReplayStore`
  unfoldable pub store_protector : (Json → Option String) → ReplayProtector (Edge W)
  store_protector sha256_hex = record {
    claim_request = λ request. on_store (claim_request sha256_hex request);
    mark_consumed = λ key now. on_store (mark_consumed key now);
    release_claim = λ key now reason. on_store (release_claim key now reason);
  }

  abbrev pub escrow_at_edge :
      Option (Presentation → Exec W EscrowRecord)
      → Option (Presentation → Exec (Edge W) EscrowRecord)
  escrow_at_edge none = none
  escrow_at_edge (some consume) = some (λ a. on_world (consume a))

  abbrev pub idempotency_at_edge : Option (IdempotencyStore W) → Option (IdempotencyStore (Edge W))
  idempotency_at_edge none = none
  idempotency_at_edge (some d) = some (record {
    lookup = λ id. on_world (d.lookup id);
    record_result = λ id hash payload. on_world (d.record_result id hash payload);
  })

  abbrev pub effects_at_edge : Option (EffectProtector W) → Option (EffectProtector (Edge W))
  effects_at_edge none = none
  effects_at_edge (some p) = some (record {
    protocol = p.protocol;
    namespace = p.namespace;
    claim = λ reference request. on_world (p.claim reference request);
    descriptor_builder = p.descriptor_builder;
  })

  -- the executor, before its replay protector and what it does if that store fails are given
  unfoldable pub at_edge : ProtectedExecutor W → ProtectedExecutor (Edge W)
  at_edge x = record {
    proof_verifier = x.proof_verifier;
    credential_broker = record {
      acquire = λ intent pccb context. on_world (x.credential_broker.acquire intent pccb context);
      release = λ c outcome. on_world (x.credential_broker.release c outcome);
    };
    replay_protector = none;
    escrow = escrow_at_edge x.escrow;
    outcomes = record {
      domain = x.outcomes.domain;
      receipt_id_factory = on_world x.outcomes.receipt_id_factory;
      refusal_id_factory = on_world x.outcomes.refusal_id_factory;
      write_receipt = λ r. on_world (x.outcomes.write_receipt r);
      write_refusal = λ r. on_world (x.outcomes.write_refusal r);
    };
    fail_open = false;
    idempotency_store = idempotency_at_edge x.idempotency_store;
    effect_protector = effects_at_edge x.effect_protector;
    message = x.message;
    exception_type = x.exception_type;
    sha256_hex = x.sha256_hex;
    valid_outcome = x.valid_outcome;
  }

  -- a handler, noting the key of the request before it runs
  unfoldable pub noting : (Json → Option String) → BrokeredHandler W → BrokeredHandler (Edge W)
  noting sha256_hex handler request c e =
      let (answer, w) = handler request c e.world in
      (
        answer,
        record {
          store = e.store;
          handled = with_key (build_replay_key sha256_hex request.intent request.pccb) e.handled;
          world = w;
        },
      )

-- the executor with this replay protector
abbrev pub over :
    {E : Type 0} → ReplayProtector E → Bool → ProtectedExecutor E → ProtectedExecutor E
over protector opens x = record x { replay_protector = some protector; fail_open = opens }

-- An execution at the edge by any executor, or a call of the replay store by another process.
pub data Step (W : Type 0) : Type 0 where
  execution :
      ProtectedExecutor W
      → ProtectedExecutionRequest
      → BrokeredHandler W
      → Option PolicyDecision
      → Step W
  outside : Call → Step W

-- whether an execution is by an executor with `replay_store_failure="fail_closed"`
abbrev pub fails_closed : {W : Type 0} → Step W → Bool
fails_closed (execution x request handler decision) = not x.fail_open
fails_closed (outside call) = true

module _ {W : Type 0} (sha256_hex : Json → Option String) where
  unfoldable pub step : Step W → Edge W → Edge W
  unfolding execute store_protector at_edge noting perform
  step (execution x request handler decision) e =
      (execute (over (store_protector sha256_hex) x.fail_open (at_edge x)) request
        (noting sha256_hex handler) decision e).1
  step (outside call) e = record e { store = (perform call e.store).1 }

  unfoldable pub run_steps : List (Step W) → Edge W → Edge W
  unfolding step
  run_steps [] e = e
  run_steps (s ∷ rest) e = run_steps rest (step s e)
