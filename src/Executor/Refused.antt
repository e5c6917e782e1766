-- ===== src/Executor/Refused.antt =====
-- How `ProtectedExecutor.execute` answers at each of its early ends.
use actenon_kernel.Prelude.{Bool, Option, String, false, is_some, none, not, refl, some, true, ◌≡◌}
use actenon_kernel.Json.{Json, get}
use actenon_kernel.Core.Refusal.{Refusal, ok, pure, refused, ◌>>=◌, ◌>>◌}
use actenon_kernel.Contracts.{PolicyDecision, ProtectedExecutionRequest}
use actenon_kernel.Effects.{EffectProtector}
use actenon_kernel.Verifier.{verify}
use actenon_kernel.Executor.Model.{
  BrokeredHandler, ProtectedExecutor, ReplayProtector, Session, no_locals,
}
use actenon_kernel.Executor.Body.{
  check_effect_extension, check_policy, claimed_session, operation_of,
}
use actenon_kernel.Executor.Attempt.{attempt, check_operation}
use actenon_kernel.Executor.Run.{
  after_refusal, execute, release_replay_claim, settle, write_refused,
}
use actenon_kernel.Executor.Guarded.{permits}

-- `"effect" in extensions` needs an effect protector
abbrev pub effect_covered : {E : Type 0} → Option (EffectProtector E) → Option Json → Bool
effect_covered (some _) _ = true
effect_covered none o = not (is_some o)

module _ {E : Type 0} (x : ProtectedExecutor E) (request : ProtectedExecutionRequest) where
  -- nothing is released where there is no claim
  release_none :
      (p : Option (ReplayProtector E)) (done : Bool) (reason : String) (e : E)
      → release_replay_claim x request p none done reason e ≡ (ok tt, e)
  unfolding pure
  release_none none done reason e = refl
  release_none (some p) true reason e = refl
  release_none (some p) false reason e = refl

  pub refused_at_once :
      (r : Refusal) (e : E)
      → after_refusal x request r no_locals e ≡ write_refused x request r no_locals e
  unfolding after_refusal ◌>>=◌ pure
  refused_at_once r e = rw (release_none x.replay_protector false r.refusal_code e) refl

  module _ (handler : BrokeredHandler E) (decision : Option PolicyDecision) (e : E) where
    abbrev pub begun : Session E
    begun = record { env = e; locals = no_locals }

    -- If the verifier refuses, `execute` answers with the refusal and its receipt, written from the
    -- environment as it was: no claim, escrow, credential, mark, release or handler is called.
    pub unverified_refused :
        (r : Refusal)
        → verify x.proof_verifier request.intent request.pccb request.context ≡ refused r
        → execute x request handler decision e ≡ write_refused x request r no_locals e
    unfolding execute attempt settle ◌>>=◌
    unverified_refused r refusal = rw refusal (refused_at_once r e)

    module _
        (accepted : verify x.proof_verifier request.intent request.pccb request.context ≡ ok tt)
        (permitted : permits decision ≡ true)
        (covered : effect_covered x.effect_protector (get request.pccb.extensions "effect")
          ≡ true) where
      policy_passed : (s : Session E) → check_policy x decision s ≡ (ok tt, s)
      policy_passed s = go decision permitted
        where
          go : (d : Option PolicyDecision) → permits d ≡ true → check_policy x d s ≡ (ok tt, s)
          go none h = refl
          go (some d) h = rw h refl

      extension_passed :
          (s : Session E)
          → check_effect_extension x x.effect_protector (get request.pccb.extensions "effect") s
            ≡ (ok tt, s)
      extension_passed s = go x.effect_protector (get request.pccb.extensions "effect") covered
        where
          go :
              (p : Option (EffectProtector E)) (o : Option Json)
              → effect_covered p o ≡ true
              → check_effect_extension x p o s ≡ (ok tt, s)
          go none none h = refl
          go none (some v) h = cc
          go (some p) o h = refl

      pub attempt_admitted :
          attempt x request handler decision begun
          ≡ (claimed_session x request
                >> check_operation x request handler x.idempotency_store x.effect_protector
                    (operation_of request.intent))
              begun
      unfolding attempt ◌>>=◌
      attempt_admitted = rw (accepted, policy_passed begun, extension_passed begun) refl
