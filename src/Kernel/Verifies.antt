-- ===== src/Kernel/Verifies.antt =====
-- From the admission of an intent (actenon/core/kernel.py) to the verification of its proof at the
-- edge (actenon/proof/service.py).
use actenon_kernel.Prelude.{String, inl, inr, none, some, true, ◌+◌, ◌≡◌, ◌≤◌}
use actenon_kernel.Json.{Json}
use actenon_kernel.Contracts.{ActionIntent, DynamicContextInput, Pccb}
use actenon_kernel.Core.Refusal.{is_ok, ok}
use actenon_kernel.Core.Time.{Time, max_time}
use actenon_kernel.Policy.{evaluate}
use actenon_kernel.Minter.Accepted.{Trusts, later_context, mint_accepted}
use actenon_kernel.Verifier.{Verifier, verify}
use actenon_kernel.Kernel.Submit.{
  AdmissionResult, ProtectedExecutionKernel, minting_of, submit_intent,
}
use actenon_kernel.Kernel.Admitted.{submit_intent-IsAdmitted}

module _ {E : Type 0} (v : Verifier) (base : ProtectedExecutionKernel E)
    (context : DynamicContextInput) (later : Time) where
  -- a kernel with the verifier's libraries and without a seal client
  abbrev pub unsealed : ProtectedExecutionKernel E
  unsealed = record base { libraries = v.libraries; seal = none }

  -- The intent that was parsed is the one that the proof is accepted for.
  pub record IsVerified (payload : Json) (e : E) (p : Pccb) : Type 0 where
    pub intent : ActionIntent
    pub parsed : (base.intake payload e).0 ≡ ok intent
    pub accepted : is_ok (verify v intent p (later_context context later)) ≡ true

  -- Without a seal client, every proof that `submit_intent` returns is accepted by `verify` for the
  -- parsed intent at a later time in its window, if the verifier has the kernel's libraries and
  -- trusts its minter for that intent.
  pub admitted_verifies :
      (payload : Json) (e : E) (r : AdmissionResult) (p : Pccb)
      → (submit_intent unsealed context payload e).0 ≡ ok r
      → r.pccb ≡ some p
      → ((intent : ActionIntent) (escrow_id : String)
          → (base.intake payload e).0 ≡ ok intent
          → Trusts v base.pccb_minter (minting_of unsealed context intent escrow_id) later
            × (later ≤ intent.expires_at + v.clock_skew_tolerance))
      → context.now ≤ later + v.clock_skew_tolerance
      → later + v.clock_skew_tolerance ≤ max_time
      → v.clock_skew_tolerance ≤ later
      → IsVerified payload e p
  admitted_verifies payload e r p h has trusted begun in_range after_min =
      let a = submit_intent-IsAdmitted unsealed context payload e r p h has in
      let (trusts, unexpired) = trusted a.intent a.escrow_id a.parsed in
      let g = minting_of unsealed context a.intent a.escrow_id in
      let local_accepted =
        mint_accepted v base.pccb_minter g later trusts begun unexpired in_range after_min
          a.local_pccb (evaluate base.policy_engine a.intent context) a.minted in
      record {
        intent = a.intent;
        parsed = a.parsed;
        accepted = elim a.preserved [
          | inl same ↦ rw same local_accepted
          | inr (client, _) ↦ absurd (cc client)
        ];
      }
