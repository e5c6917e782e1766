-- ===== src/Kernel/Admitted.antt =====
-- What is known of a proof that `submit_intent` of actenon/core/kernel.py returns.
use actenon_kernel.Prelude.{
  Bool-cases, Option-cases, String, inl, inr, is_some, nat_eq, none, refl, some, string_eq, sym,
  true, ◌==◌, ◌||◌, ◌≡◌, ◌⊎◌,
}
use actenon_kernel.Json.{Json}
use actenon_kernel.Contracts.{ActionIntent, DynamicContextInput, Pccb, PolicyDecision, allowed}
use actenon_kernel.Core.Refusal.{
  Exec, Result, answer, is_ok, ok, ok_of_bind, pure, raised, refused, returned_ok, ◌>>=◌,
}
use actenon_kernel.Policy.{evaluate}
use actenon_kernel.Minter.{Minting, mint}
use actenon_kernel.Kernel.Bindings.{
  bindings_kept, first_changed, first_changed-kept, required_matches,
}
use actenon_kernel.Kernel.Submit.{
  AdmissionResult, ProtectedExecutionKernel, SealAnswer, complete, decide, deny, hold, issue_for,
  mint_and_escrow, minting_of, on_intake, resolve, result_of, seal_error, seal_failed, sealed,
  settle_seal, store_in, submit_intent, validated, write_refusal_of,
}

-- Every value that `m` returns has `P`.
record Yields {S A : Type 0} (P : A → Type 0) (m : Exec S A) : Type 0 where
  yields : (s : S) (a : A) → (m s).0 ≡ ok a → P a

module _ {S A : Type 0} {P : A → Type 0} where
  pure-Yields : (a : A) → P a → Yields {S = S} P (pure a)
  unfolding pure
  pure-Yields a h = record { yields = λ s b e. let same : a ≡ b = cc e in rw (← same) h }

  bind-Yields :
      {B : Type 0} (m : Exec S B) (f : B → Exec S A)
      → ((b : B) → Yields P (f b))
      → Yields P (m >>= f)
  bind-Yields m f k = record {
    yields = λ s a h.
        let (b, _, _, same) = ok_of_bind m f s (returned_ok _ a h) in
        (k b).yields (m s).1 a (rw same at h);
  }

module _ {E : Type 0} (k : ProtectedExecutionKernel E) (context : DynamicContextInput) where
  -- The seal client is there, and left the bindings of the minted proof.
  abbrev pub IsSealed : Pccb → Pccb → Type 0
  IsSealed local_pccb p = (is_some k.seal ≡ true) × (bindings_kept k.value_eq local_pccb p ≡ true)

  -- The intent was read from the payload and allowed by the policy, the minter's proof for it has
  -- the bindings of this one, and the escrow issued its record for this proof.
  pub record IsAdmitted (payload : Json) (before : E) (p : Pccb) : Type 0 where
    pub intent : ActionIntent
    pub parsed : (k.intake payload before).0 ≡ ok intent
    pub allowed_by_policy : allowed (evaluate k.policy_engine intent context) ≡ true
    pub escrow_id : String
    pub local_pccb : Pccb
    pub minted :
        mint k.libraries k.pccb_minter
          (evaluate k.policy_engine intent context)
          (minting_of k context intent escrow_id)
        ≡ ok local_pccb
    pub preserved : (p ≡ local_pccb) ⊎ IsSealed local_pccb p
    pub at : E
    pub issued_for : is_ok (k.issue_escrow (issue_for intent escrow_id p) at).0 ≡ true

  deny-Yields :
      (intent : ActionIntent) (d : PolicyDecision)
      → Yields (λ (r : AdmissionResult). r.pccb ≡ none) (deny k context intent d)
  unfolding deny
  deny-Yields intent d =
      bind-Yields _ _ λ receipt. bind-Yields _ _ λ _. bind-Yields _ _ λ refusal. pure-Yields _ refl

  hold-Yields :
      (intent : ActionIntent) (d : PolicyDecision)
      → Yields (λ (r : AdmissionResult). r.pccb ≡ none) (hold k context intent d)
  unfolding hold
  hold-Yields intent d = bind-Yields _ _ λ receipt. bind-Yields _ _ λ _. pure-Yields _ refl

  complete-Yields :
      (intent : ActionIntent) (d : PolicyDecision) (id : String) (p : Pccb)
      → Yields (λ (r : AdmissionResult). r.pccb ≡ some p) (complete k context intent d id p)
  unfolding complete
  complete-Yields intent d id p =
      bind-Yields _ _
        λ _. bind-Yields _ _ λ receipt. bind-Yields _ _ λ _. bind-Yields _ _ λ _. pure-Yields _ refl

  complete_issued :
      (intent : ActionIntent) (d : PolicyDecision) (id : String) (p q : Pccb) (e : E)
      (r : AdmissionResult)
      → (complete k context intent d id p e).0 ≡ ok r
      → r.pccb ≡ some q
      → (q ≡ p) × (is_ok (k.issue_escrow (issue_for intent id p) e).0 ≡ true)
  unfolding complete
  complete_issued intent d id p q e r h has =
      let same = (complete-Yields intent d id p).yields e r h in
      let (record_, done, _, _) =
        ok_of_bind (k.issue_escrow (issue_for intent id p)) _ e (returned_ok _ r h) in
      (cc (same, has), returned_ok _ record_ done)

  validated_kept :
      (local_pccb p : Pccb) (a : SealAnswer)
      → validated k context local_pccb a ≡ ok p
      → bindings_kept k.value_eq local_pccb p ≡ true
  unfolding validated
  validated_kept local_pccb p (sealed q) h =
      elim (Option-cases (first_changed (required_matches k.value_eq local_pccb q))) [
        | inl none_changed ↦
            let same : q ≡ p = cc (rw none_changed at h) in
            rw (← same) (first_changed-kept k.value_eq local_pccb q none_changed)
        | inr (field_name, changed) ↦ absurd (cc (rw changed at h))
      ]
  validated_kept local_pccb p (seal_error exc) h = absurd (cc h)
  validated_kept local_pccb p seal_failed h = absurd (cc h)

  settled :
      (intent : ActionIntent) (d : PolicyDecision) (id : String) (local_pccb q : Pccb)
      (reply : Result Pccb) (e : E) (r : AdmissionResult)
      → ((p : Pccb) → reply ≡ ok p → (p ≡ local_pccb) ⊎ IsSealed local_pccb p)
      → (settle_seal k context intent d id local_pccb reply e).0 ≡ ok r
      → r.pccb ≡ some q
      → ((q ≡ local_pccb) ⊎ IsSealed local_pccb q)
        × (is_ok (k.issue_escrow (issue_for intent id q) e).0 ≡ true)
  unfolding settle_seal
  settled intent d id local_pccb q (ok p) e r good h has =
      let (same, done) = complete_issued intent d id p q e r h has in rw same (good p refl, done)
  settled intent d id local_pccb q raised e r good h has = absurd (cc h)
  settled intent d id local_pccb q (refused exc) e r good h has =
      elim (Bool-cases k.require_proof_seal) [
        | inr optional ↦
            let (same, done) =
              complete_issued intent d id local_pccb q e r (rw optional at h) has in
            (inl same, rw same done)
        | inl needed ↦
            let none_there =
              (bind-Yields {P = λ (r : AdmissionResult). r.pccb ≡ none}
                  (write_refusal_of k context exc (some intent) (some local_pccb) (some id))
                  (λ refusal. pure (record (result_of intent d) { refusal = some refusal }))
                  (λ refusal. pure-Yields _ refl)).yields
                e r (rw needed at h) in
            absurd (cc (none_there, has))
      ]

  mint-allowed :
      (d : PolicyDecision) (g : Minting) (p : Pccb)
      → mint k.libraries k.pccb_minter d g ≡ ok p
      → allowed d ≡ true
  unfolding mint
  mint-allowed d g p h = elim (Bool-cases (allowed d)) [
    | inl yes_ ↦ yes_
    | inr no_ ↦ absurd (cc (rw no_ at h))
  ]

  resolved :
      (intent : ActionIntent) (d : PolicyDecision) (local_pccb p : Pccb) (e : E)
      → (resolve k context intent d local_pccb e).0 ≡ ok p
      → (p ≡ local_pccb) ⊎ IsSealed local_pccb p
  unfolding resolve
  resolved intent d local_pccb p e h = elim (Option-cases k.seal) [
    | inl absent ↦ inl (sym (cc (rw absent at h)))
    | inr (client, there) ↦ inr (rw there refl, validated_kept local_pccb p _ (rw there at h))
  ]

  minted_case :
      (payload : Json) (e : E) (r : AdmissionResult) (p : Pccb) (intent : ActionIntent) (t : E)
      → r.pccb ≡ some p
      → (k.intake payload e).0 ≡ ok intent
      → (mint_and_escrow k context intent (evaluate k.policy_engine intent context) t).0 ≡ ok r
      → IsAdmitted payload e p
  unfolding mint_and_escrow answer
  minted_case payload e r p intent t has parsed h =
      let d = evaluate k.policy_engine intent context in
      let (id, _, _, first) = ok_of_bind k.escrow_id_factory _ t (returned_ok _ r h) in
      let h1 = rw first at h in
      let u = (k.escrow_id_factory t).1 in
      let (local_pccb, made, _, second) =
        ok_of_bind (answer (mint k.libraries k.pccb_minter d (minting_of k context intent id))) _ u
          (returned_ok _ r h1) in
      let h2 = rw second at h1 in
      let (kept, done) =
        settled intent d id local_pccb p (resolve k context intent d local_pccb u).0
          (resolve k context intent d local_pccb u).1 r (λ q. resolved intent d local_pccb q u) h2
          has in
      record {
        intent = intent;
        parsed = parsed;
        allowed_by_policy = mint-allowed d (minting_of k context intent id) local_pccb made;
        escrow_id = id;
        local_pccb = local_pccb;
        minted = made;
        preserved = kept;
        at = (resolve k context intent d local_pccb u).1;
        issued_for = done;
      }

  decided_case :
      (payload : Json) (e : E) (r : AdmissionResult) (p : Pccb) (intent : ActionIntent) (t : E)
      → r.pccb ≡ some p
      → (k.intake payload e).0 ≡ ok intent
      → (decide k context intent (evaluate k.policy_engine intent context) t).0 ≡ ok r
      → IsAdmitted payload e p
  unfolding decide
  decided_case payload e r p intent t has parsed h =
      let d = evaluate k.policy_engine intent context in
      elim (Bool-cases (d.outcome == "deny")) [
        | inl denied ↦ absurd (cc ((deny-Yields intent d).yields t r (rw denied at h), has))
        | inr undenied ↦
            let h1 = rw undenied at h in
            elim (Bool-cases (d.outcome == "approval-required" || d.outcome == "needs-evidence")) [
              | inl held ↦ absurd (cc ((hold-Yields intent d).yields t r (rw held at h1), has))
              | inr unheld ↦ minted_case payload e r p intent t has parsed (rw unheld at h1)
            ]
      ]

  -- A proof that `submit_intent` returns is one for an intent that was parsed from the payload and
  -- that the policy engine allows; it is the minted proof, or a sealed one with the same intent,
  -- times, parties, audience, action, target, scope, escrow id and hash; and the escrow issued its
  -- record for this proof, the intent's capability and the proof's expiry.
  pub submit_intent-IsAdmitted :
      (payload : Json) (e : E) (r : AdmissionResult) (p : Pccb)
      → (submit_intent k context payload e).0 ≡ ok r
      → r.pccb ≡ some p
      → IsAdmitted payload e p
  unfolding submit_intent on_intake
  submit_intent-IsAdmitted payload e r p h has =
      go (k.intake payload e).0 (k.intake payload e).1 refl h
    where
      go :
          (o : Result ActionIntent) (t : E)
          → (k.intake payload e).0 ≡ o
          → (on_intake k context o t).0 ≡ ok r
          → IsAdmitted payload e p
      go raised t same h = absurd (cc h)
      go (ok intent) t same h =
          let (_, _, _, stored) =
            ok_of_bind (store_in k.put_intent intent) _ t (returned_ok _ r h) in
          decided_case payload e r p intent (store_in k.put_intent intent t).1 has same
            (rw stored at h)
      go (refused exc) t same h =
          let none_there =
            (bind-Yields {P = λ (r : AdmissionResult). r.pccb ≡ none}
                (write_refusal_of k context exc none none none) _
                (λ refusal. pure-Yields _ refl)).yields
              t r h in
          absurd (cc (none_there, has))
