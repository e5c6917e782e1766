-- ===== src/Effects/Tests.antt =====
-- A proof for one effect, at an edge that owns its reservation.
use actenon_kernel.Prelude.{String, nat_eq, none, refl, some, string_eq, ℕ, ◌+◌, ◌==◌, ◌↔◌, ◌≡◌}
use actenon_kernel.Json.{end, field, obj}
use actenon_kernel.Core.Refusal.{ok, proof_error, refused}
use actenon_kernel.Core.Patterns.{chars, prefixed_hex}
use actenon_kernel.Contracts.{ProtectedExecutionRequest}
use actenon_kernel.Effects.{
  EffectProtector, EffectReference, claim_effect, claim_identified, claim_issued, claim_referenced,
  computed_identity, descriptor_fits, identity_of, reference_dict, reference_from_dict,
  reference_from_fields,
}
use actenon_kernel.Effects.Claims.{IsOwned, claim_effect-IsOwned}
use actenon_kernel.Verifier.Tests.{here, refund_of, render, signed_by}

abbrev effect_id : String
effect_id = "effect_0123456789abcdef0123456789abcdef0123456789abcdef0123456789abcdef"

abbrev reservation : EffectReference
reservation = record {
  profile = "p";
  effect_id = effect_id;
  reservation_id = "reservation_0123456789abcdef0123456789abcdef";
  owner_attempt_id = "exec_0123456789abcdef";
}

-- a ledger that gives away one effect: its state is the number of claims
abbrev ledger : EffectProtector ℕ
ledger = record {
  protocol = record {
    effect_profile = "p";
    canonicalize_bytes = λ x. some (render x);
    authority_issuer = λ _. some (some "agent:a-1");
    effect_identity = λ _. some effect_id;
  };
  namespace = "n";
  claim = λ reference request n. (ok (n == 0), n + 1);
  descriptor_builder = none;
}

abbrev attempt : ProtectedExecutionRequest
attempt = record {
  intent = record (refund_of "5") { intent_id = "exec_0123456789abcdef" };
  pccb = record (signed_by "key-1") {
    extensions = field "effect" (obj (reference_dict reservation)) end;
  };
  context = here;
}

claimed_then_refused :
    (claim_effect ledger attempt 0 ≡ (ok reservation, 1))
    × (claim_effect ledger attempt 1 ≡ (refused (proof_error "POLICY_REFUSAL"), 2))
unfolding claim_effect claim_referenced claim_issued claim_identified reference_from_dict
    reference_from_fields computed_identity identity_of descriptor_fits prefixed_hex chars render
claimed_then_refused = (refl, refl)

claim_effect-IsOwned_example :
    (claim_effect ledger attempt 0 ≡ (ok reservation, 1)) ↔ IsOwned ledger attempt 0 1 reservation
claim_effect-IsOwned_example = claim_effect-IsOwned ledger attempt 0 1 reservation
