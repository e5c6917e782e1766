-- ===== src/Verifier/Disclosure.antt =====
-- What a refusal tells the caller: `VerifierDisclosureMode` of actenon/proof/service.py.
use actenon_kernel.Prelude.{
  Bool, Option, String, ap, false, if◌then◌else◌, inl, inr, none, refl, some, sym, true, ◌∙◌, ◌≡◌,
  ◌≢◌, ◌⊎◌,
}
use actenon_kernel.Json.{obj}
use actenon_kernel.Core.Refusal.{Refusal, is_ok, ok, proof_error, raised, refused}
use actenon_kernel.Contracts.{ActionIntent, DynamicContextInput, Pccb, unsigned_payload}
use actenon_kernel.Verifier.Checks.{
  Check, Verifier, VerifierDisclosureMode, local_debug, post_auth_failure, pre_auth_failure,
  public_generic, require, trusted_detailed, ◌⨾◌,
}
use actenon_kernel.Verifier.Service.{
  authenticate, build_action_hash_input, check_action, check_digest, check_edge, check_hash,
  check_place, check_revocation, check_scope, check_signature, check_time, mismatch, verify,
}

-- the only refusal that a check may raise
abbrev RefusesOnly : Refusal → Check → Type 0
RefusesOnly r c = (s : Refusal) → c ≡ refused s → s ≡ r

refusal_or : Refusal → Check → Refusal
refusal_or r (ok _) = r
refusal_or r (refused s) = s
refusal_or r raised = r

module _ (r : Refusal) where
  refused-only : RefusesOnly r (refused r)
  unfolding refusal_or
  refused-only s h = sym (ap (refusal_or r) h)

  raised-only : RefusesOnly r raised
  unfolding refusal_or
  raised-only s h = sym (ap (refusal_or r) h)

  require-only : (b : Bool) (q : Refusal) → q ≡ r → RefusesOnly r (require b q)
  unfolding require refusal_or
  require-only true q e s h = sym (ap (refusal_or r) h)
  require-only false q e s h = sym (ap (refusal_or r) h) ∙ e

  then-only : (a b : Check) → RefusesOnly r a → RefusesOnly r b → RefusesOnly r (a ⨾ b)
  unfolding ◌⨾◌
  then-only (ok _) b only_a only_b = only_b
  then-only (refused s) b only_a only_b = only_a
  then-only raised b only_a only_b = only_a

  if-only : (b : Bool) (c : Check) → RefusesOnly r c → RefusesOnly r (if b then raised else c)
  if-only true c only = raised-only
  if-only false c only = only

abbrev invalid : Refusal
invalid = proof_error "PROOF_INVALID"

-- a check that passes, or refuses as invalid
abbrev IsSettled : Check → Type 0
IsSettled c = (c ≡ ok tt) ⊎ (c ≡ refused invalid)

IsSettled-require : (b : Bool) (q : Refusal) → q ≡ invalid → IsSettled (require b q)
unfolding require
IsSettled-require true q e = inl refl
IsSettled-require false q e = inr (ap refused e)

IsSettled-then : (a b : Check) → IsSettled a → IsSettled b → IsSettled (a ⨾ b)
unfolding ◌⨾◌
IsSettled-then a b (inl e) settled = rw e settled
IsSettled-then a b (inr e) settled = inr (rw e refl)

IsSettled-only : (c : Check) → IsSettled c → RefusesOnly invalid c
unfolding refusal_or require
IsSettled-only c (inl e) = rw e (require-only invalid true invalid refl)
IsSettled-only c (inr e) = rw e (refused-only invalid)

pre_auth_invalid :
    (mode : VerifierDisclosureMode) (code : String)
    → mode ≢ local_debug
    → pre_auth_failure mode code ≡ invalid
pre_auth_invalid public_generic code other = refl
pre_auth_invalid trusted_detailed code other = refl
pre_auth_invalid local_debug code other = absurd (other refl)

module _ (v : Verifier) (i : ActionIntent) (p : Pccb) (context : DynamicContextInput) where
  check_signature-IsSettled :
      (payload : Option String)
      → v.disclosure_mode ≢ local_debug
      → IsSettled (check_signature v p payload)
  unfolding check_signature
  check_signature-IsSettled none other =
      inr (ap refused (pre_auth_invalid v.disclosure_mode "PROOF_PAYLOAD_INVALID" other))
  check_signature-IsSettled (some payload) other =
      IsSettled-require (v.signature_valid payload p) _
        (pre_auth_invalid v.disclosure_mode "SIGNATURE_INVALID" other)

  authenticate-IsSettled : v.disclosure_mode ≢ local_debug → IsSettled (authenticate v p)
  unfolding authenticate
  authenticate-IsSettled other =
      IsSettled-then _ _
        (IsSettled-require _ _
          (pre_auth_invalid v.disclosure_mode "UNSUPPORTED_PROTOCOL_VERSION" other))
        (IsSettled-then _ _
          (IsSettled-require _ _ (pre_auth_invalid v.disclosure_mode "SIGNATURE_INVALID" other))
          (check_signature-IsSettled (v.canonicalize_bytes (obj (unsigned_payload p))) other))

  -- Unless the mode is local_debug, every proof that fails authentication is refused with
  -- PROOF_INVALID, whatever its other fields, the intent and the context are.
  pub forged_refused :
      v.disclosure_mode ≢ local_debug
      → is_ok (authenticate v p) ≡ false
      → verify v i p context ≡ refused invalid
  unfolding verify ◌⨾◌
  forged_refused other h = elim (authenticate-IsSettled other) [
    | inl e ↦ absurd (cc (rw e at h))
    | inr e ↦ rw e refl
  ]

  module _ (generic : v.disclosure_mode ≡ public_generic) where
    mismatch-invalid : (code : String) → mismatch v code ≡ invalid
    mismatch-invalid code =
        ap (λ (mode : VerifierDisclosureMode). post_auth_failure mode code) generic

    only : (b : Bool) (code : String) → RefusesOnly invalid (require b (mismatch v code))
    only b code = require-only invalid b (mismatch v code) (mismatch-invalid code)

    time_only : RefusesOnly invalid (check_time v p context)
    unfolding check_time
    time_only =
        if-only invalid _ _ (then-only invalid _ _ (only _ _) (if-only invalid _ _ (only _ _)))

    place_only : RefusesOnly invalid (check_place v i p context)
    unfolding check_place
    place_only = then-only invalid _ _ (only _ _) (then-only invalid _ _ (only _ _) (only _ _))

    scope_only : RefusesOnly invalid (check_scope v i p context)
    unfolding check_scope
    scope_only = then-only invalid _ _ (only _ _) (then-only invalid _ _ (only _ _) (only _ _))

    action_only : RefusesOnly invalid (check_action v i p)
    unfolding check_action
    action_only =
        then-only invalid _ _ (only _ _)
          (then-only invalid _ _ (only _ _) (then-only invalid _ _ (only _ _) (only _ _)))

    digest_only : (input : Option String) → RefusesOnly invalid (check_digest v p input)
    unfolding check_digest
    digest_only none = rw (mismatch-invalid "ACTION_HASH_INVALID") (refused-only invalid)
    digest_only (some input) = then-only invalid _ _ (only _ _) (only _ _)

    edge_only : RefusesOnly invalid (check_edge v p context)
    unfolding check_edge
    edge_only = then-only invalid _ _ (only _ _) (only _ _)

    -- In the mode public_generic every refusal of `verify` is PROOF_INVALID.
    pub generic_refusals :
        (r : Refusal) → verify v i p context ≡ refused r → r ≡ proof_error "PROOF_INVALID"
    unfolding verify check_hash check_revocation
    generic_refusals =
        then-only invalid _ _ (IsSettled-only _ (authenticate-IsSettled (λ e. cc (generic, e)))) (
          then-only invalid _ _ time_only (
            then-only invalid _ _ place_only (
              then-only invalid _ _ scope_only (
                then-only invalid _ _ action_only (
                  then-only invalid _ _
                    (digest_only (v.canonicalize_bytes (obj (build_action_hash_input i))))
                    (then-only invalid _ _ edge_only (only _ _)))))))
