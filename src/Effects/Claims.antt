-- ===== src/Effects/Claims.antt =====
-- When `EffectProtector.claim_request` (actenon/execution/effects.py) returns.
use actenon_kernel.Prelude.{
  Bool, Bool-cases, Option, String, [], ap, false, inl, inr, nat_eq, none, refl, some, string_eq,
  true, ◌==◌, ◌↔◌, ◌∙◌, ◌∷◌, ◌≡◌,
}
use actenon_kernel.Json.{get}
use actenon_kernel.Core.Refusal.{Result, ok, raised, refused}
use actenon_kernel.Core.Format.{concat}
use actenon_kernel.Contracts.{ProtectedExecutionRequest}
use actenon_kernel.Effects.{
  EffectProtector, EffectReference, claim_effect, claim_identified, claim_issued, claim_referenced,
  claimed_or_refused, computed_identity, reference_from_dict,
}

module _ {E : Type 0} (protector : EffectProtector E) (request : ProtectedExecutionRequest)
    (s s' : E) (reference : EffectReference) where
  abbrev issuer_text : String
  issuer_text = concat (request.pccb.issuer.type ∷ ":" ∷ request.pccb.issuer.id ∷ [])

  -- The proof's effect extension is this reservation, made for this intent by the issuer of the
  -- proof, its identity is the one that the edge computes, and the ledger's claim of it returned True.
  pub record IsOwned : Type 0 where
    pub signed :
        reference_from_dict protector.effect_profile (get request.pccb.extensions "effect")
        ≡ some reference
    pub by_attempt : (reference.owner_attempt_id == request.intent.intent_id) ≡ true
    pub issuer : String
    pub of_authority : protector.authority_issuer request.pccb.extensions ≡ some (some issuer)
    pub by_issuer : (issuer == issuer_text) ≡ true
    pub identity : String
    pub recomputed : computed_identity protector request ≡ some identity
    pub same_effect : (reference.effect_id == identity) ≡ true
    pub claimed_once : protector.claim reference request s ≡ (ok true, s')

  answered :
      (r : Result Bool) (t : E) (reference' : EffectReference)
      → ◌≡◌ {A = Result EffectReference × E}
          (claimed_or_refused protector reference' r, t)
          (ok reference, s')
      → (reference' ≡ reference) × (◌≡◌ {A = Result Bool × E} (r, t) (ok true, s'))
  answered (ok true) t reference' h = (cc h, cc h)
  answered (ok false) t reference' h = absurd (cc h)
  answered (refused _) t reference' h = absurd (cc h)
  answered raised t reference' h = absurd (cc h)

  identified :
      (r : EffectReference) (o : Option String)
      → claim_identified protector r request o s ≡ (ok reference, s')
      → (r ≡ reference)
        × ((id : String) × (o ≡ some id) × ((r.effect_id == id) ≡ true))
        × (protector.claim r request s ≡ (ok true, s'))
  unfolding claim_identified
  identified r none h = absurd (cc h)
  identified r (some id) h = elim (Bool-cases (r.effect_id == id)) [
    | inr other ↦ absurd (cc (rw other at h))
    | inl same ↦
        let (e, claim) =
          answered (protector.claim r request s).0 (protector.claim r request s).1 r
            (rw same at h) in
        (e, (id, refl, same), claim)
  ]

  issued_by :
      (r : EffectReference) (i : Option String)
      → claim_issued protector request r i s ≡ (ok reference, s')
      → (issuer : String) × (i ≡ some issuer)
        × ((issuer == issuer_text) ≡ true)
        × (claim_identified protector r request (computed_identity protector request) s
            ≡ (ok reference, s'))
  unfolding claim_issued
  issued_by r none h = absurd (cc h)
  issued_by r (some issuer) h = elim (Bool-cases (issuer == issuer_text)) [
    | inr foreign ↦ absurd (cc (rw foreign at h))
    | inl trusted ↦ (issuer, refl, trusted, rw trusted at h)
  ]

  referenced :
      (o : Option EffectReference) (i : Option (Option String))
      → claim_referenced protector request o i s ≡ (ok reference, s')
      → reference_from_dict protector.effect_profile (get request.pccb.extensions "effect") ≡ o
      → protector.authority_issuer request.pccb.extensions ≡ i
      → IsOwned
  unfolding claim_referenced
  referenced none i h e f = absurd (cc h)
  referenced (some r) none h e f = absurd (cc h)
  referenced (some r) (some i) h e f =
      elim (Bool-cases (r.owner_attempt_id == request.intent.intent_id)) [
        | inr other ↦ absurd (cc (rw other at h))
        | inl own ↦
            let (issuer, there, trusted, h) = issued_by r i (rw own at h) in
            let (same, (id, computed, equal), claim) =
              identified r (computed_identity protector request) h in
            record {
              signed = e ∙ ap some same;
              by_attempt = rw (← same) own;
              issuer = issuer;
              of_authority = f ∙ ap some there;
              by_issuer = trusted;
              identity = id;
              recomputed = computed;
              same_effect = rw (← same) equal;
              claimed_once = rw (← same) claim;
            }
      ]

  -- `EffectProtector.claim_request` returns a reference exactly when the proof's effect extension
  -- is that reference, its owner is the intent, the issuer of the authority is the issuer of the
  -- proof, the identity that the edge computes from the request is that of the reference, and the
  -- ledger's claim returned True; the state is then the one the ledger left.
  pub claim_effect-IsOwned : (claim_effect protector request s ≡ (ok reference, s')) ↔ IsOwned
  unfolding claim_effect claim_referenced claim_issued claim_identified
  claim_effect-IsOwned = (
    λ h. referenced _ _ h refl refl,
    λ o.
        rw (o.signed, o.of_authority)
          (rw (o.by_attempt, o.by_issuer)
            (rw o.recomputed (rw o.same_effect (rw o.claimed_once refl)))),
  )
