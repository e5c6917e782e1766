-- ===== src/Verifier/Accepts.antt =====
-- When `PCCBVerifier.verify` (actenon/proof/service.py) accepts a proof.
use actenon_kernel.Prelude.{
  Option-cases, String, arith, eq_iff, inl, inr, refl, some, sym, true, ◌&&◌, ◌↔◌, ◌∙◌, ◌≡◌,
}
use actenon_kernel.Json.{obj}
use actenon_kernel.Core.Refusal.{is_ok}
use actenon_kernel.Contracts.{ActionIntent, DynamicContextInput, Pccb}
use actenon_kernel.Verifier.Checks.{Verifier, ok-then}
use actenon_kernel.Verifier.Service.{
  authenticate, build_action_hash_input, check_action, check_digest, check_edge, check_hash,
  check_place, check_revocation, check_scope, check_time, verify,
}
use actenon_kernel.Verifier.Phases.{
  IsAdmitted, IsAuthentic, IsBound, IsCurrent, IsHashed, action_ok, authenticate-IsAuthentic,
  check_time-IsCurrent, digest_ok, edge_ok, place_ok, revocation_ok, scope_ok,
}

module _ (v : Verifier) (i : ActionIntent) (p : Pccb) (context : DynamicContextInput) where
  pub record IsAccepted : Type 0 where
    pub authentic : IsAuthentic v i p context
    pub current : IsCurrent v i p context
    pub bound : IsBound v i p context
    pub hashed : IsHashed v i p context
    pub admitted : IsAdmitted v i p context

  -- the hash of one canonical input
  check_digest-IsHashed :
      (input : String)
      → v.canonicalize_bytes (obj (build_action_hash_input i)) ≡ some input
      → (is_ok (check_digest v p (some input)) ≡ true) ↔ IsHashed v i p context
  check_digest-IsHashed input e = (
    λ h.
        let parts = rw (digest_ok v i p context input) at h in
        record {
          hash_input = input;
          canonical = e;
          digest = (eq_iff p.action_hash.value (v.sha256 input)).0 (ground arith);
          algorithm = (eq_iff p.action_hash.algorithm "sha-256").0 (ground arith);
          profile = ground arith;
        },
    λ h.
        let same : some h.hash_input ≡ some input = sym h.canonical ∙ e in
        rw (digest_ok v i p context input) (
          ground (
            arith,
            h.digest,
            h.algorithm,
            h.profile,
            same,
            eq_iff p.action_hash.value (v.sha256 input),
            eq_iff p.action_hash.algorithm "sha-256",
          )),
  )

  check_hash-IsHashed : (is_ok (check_hash v i p) ≡ true) ↔ IsHashed v i p context
  unfolding check_hash
  check_hash-IsHashed =
      elim (Option-cases (v.canonicalize_bytes (obj (build_action_hash_input i)))) [
        | inl e ↦
            ((λ h. absurd (cc (rw (e, check_digest) at h))), (λ h. absurd (cc (e, h.canonical))))
        | inr (input, e) ↦ rw e (check_digest-IsHashed input e)
      ]

  verify_phases : is_ok (verify v i p context) ≡ (
      is_ok (authenticate v p)
      && (is_ok (check_time v p context)
          && (is_ok (check_place v i p context)
              && (is_ok (check_scope v i p context)
                  && (is_ok (check_action v i p)
                      && (is_ok (check_hash v i p)
                          && (is_ok (check_edge v p context)
                              && is_ok (check_revocation v p context))))))))
  unfolding verify
  verify_phases = simp ok-then

  bound_by :
      is_ok (check_place v i p context) ≡ true
      → is_ok (check_scope v i p context) ≡ true
      → is_ok (check_action v i p) ≡ true
      → IsBound v i p context
  bound_by a b c =
      let place = rw (place_ok v i p context) at a in
      let scope = rw (scope_ok v i p context) at b in
      let action = rw (action_ok v i p context) at c in
      record {
        audience = ground arith;
        boundary = ground arith;
        target = ground arith;
        exact = (eq_iff p.scope.mode "exact").0 (ground arith);
        single_use = ground arith;
        capability_signed = ground arith;
        capability_declared = ground arith;
        intent = ground arith;
        tenant = ground arith;
        subject = ground arith;
        action = ground arith;
      }

  bound_passes :
      IsBound v i p context
      → (is_ok (check_place v i p context) ≡ true)
        × (is_ok (check_scope v i p context) ≡ true)
        × (is_ok (check_action v i p) ≡ true)
  bound_passes b = (
    rw (place_ok v i p context) (rw (b.audience, b.boundary, b.target) refl),
    rw (scope_ok v i p context) (
        rw
          (
            (eq_iff p.scope.mode "exact").1 b.exact,
            b.single_use,
            b.capability_signed,
            b.capability_declared,
          )
          refl),
    rw (action_ok v i p context) (rw (b.intent, b.tenant, b.subject, b.action) refl),
  )

  admitted_by :
      is_ok (check_edge v p context) ≡ true
      → is_ok (check_revocation v p context) ≡ true
      → IsAdmitted v i p context
  admitted_by a b =
      let edge = rw (edge_ok v i p context) at a in
      record {
        constraints = ground arith;
        selectors = ground arith;
        standing = rw (revocation_ok v i p context) at b;
      }

  -- `verify` accepts exactly the proofs that are authentic (well-formed and signed over their
  -- canonical payload), current within the clock tolerance and the range of datetime, bound to the
  -- place, scope, parties and action of the intent and of the edge, carrying the hash of the intent
  -- under an accepted profile, and admitted by the edge's declarations and by the revocation
  -- status.
  pub verify_accepts : (is_ok (verify v i p context) ≡ true) ↔ IsAccepted
  verify_accepts = (
    λ h.
        let phases = rw verify_phases at h in
        record {
          authentic = (authenticate-IsAuthentic v i p context).0 (ground arith);
          current = (check_time-IsCurrent v i p context).0 (ground arith);
          bound = bound_by (ground arith) (ground arith) (ground arith);
          hashed = check_hash-IsHashed.0 (ground arith);
          admitted = admitted_by (ground arith) (ground arith);
        },
    λ h.
        let (place, scope, action) = bound_passes h.bound in
        rw verify_phases (
          rw
            (
              (authenticate-IsAuthentic v i p context).1 h.authentic,
              (check_time-IsCurrent v i p context).1 h.current,
              place,
              scope,
              action,
              check_hash-IsHashed.1 h.hashed,
              edge_ok v i p context,
              h.admitted.constraints,
              h.admitted.selectors,
              revocation_ok v i p context,
              h.admitted.standing,
            )
            refl),
  )
