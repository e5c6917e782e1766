-- ===== src/Verifier/Phases.antt =====
-- What each step of `PCCBVerifier.verify` (actenon/proof/service.py) tests.
use actenon_kernel.Prelude.{
  Bool, Option, Option-cases, String, arith, contains, inl, inr, nat_eq, none, refl, some,
  string_eq, true, ◌&&◌, ◌+◌, ◌==◌, ◌↔◌, ◌≡◌, ◌≤◌,
}
use actenon_kernel.Json.{Fields, Json, end, field, get, obj, put_fields, put_some}
use actenon_kernel.Core.Refusal.{is_ok}
use actenon_kernel.Core.Time.{max_time}
use actenon_kernel.Contracts.{
  ActionIntent, DynamicContextInput, Pccb, action_dict, audience_dict, contract_dict, party_dict,
  put_escrow, target_dict, tenant_dict, unsigned_payload,
}
use actenon_kernel.Verifier.Checks.{Verifier, require, ◌⨾◌}
use actenon_kernel.Verifier.Service.{
  authenticate, authority_revocable, build_action_hash_input, canonical_equal, check_action,
  check_digest, check_edge, check_place, check_revocation, check_scope, check_signature, check_time,
  constraints_signed, not_revoked, same_intent, selectors_met, signature_well_formed,
  supported_contract, within_boundary,
}

-- what is added to a payload leaves its first field, the contract
contract_kept :
    (contract : Json) (rest : Fields) (intent_id escrow_id : Option String) (single_use : Bool)
    (extensions : Fields)
    → get
        (put_fields
          (put_escrow
            (put_some (field "contract" contract rest) "intent_id" intent_id)
            escrow_id
            single_use)
          "extensions"
          extensions)
        "contract"
      ≡ some contract
contract_kept contract rest none none single_use end = refl
contract_kept contract rest none none single_use (field k x xs) = refl
contract_kept contract rest none (some e) single_use end = refl
contract_kept contract rest none (some e) single_use (field k x xs) = refl
contract_kept contract rest (some n) none single_use end = refl
contract_kept contract rest (some n) none single_use (field k x xs) = refl
contract_kept contract rest (some n) (some e) single_use end = refl
contract_kept contract rest (some n) (some e) single_use (field k x xs) = refl

module _ (v : Verifier) (i : ActionIntent) (p : Pccb) (context : DynamicContextInput) where
  -- The signature is one over the canonical form of everything else in the proof.
  pub record IsAuthentic : Type 0 where
    pub payload : String
    pub canonical : v.canonicalize_bytes (obj (unsigned_payload p)) ≡ some payload
    pub signed : v.signature_valid payload p ≡ true
    pub well_formed : signature_well_formed p.signature ≡ true

  -- The clock, with the tolerance either way, stands in the proof's window and in range.
  pub record IsCurrent : Type 0 where
    pub begun : p.not_before ≤ context.now + v.clock_skew_tolerance
    pub unexpired : context.now ≤ p.expires_at + v.clock_skew_tolerance
    pub in_range : context.now + v.clock_skew_tolerance ≤ max_time
    pub after_min : v.clock_skew_tolerance ≤ context.now

  -- The place, the scope, the parties and the action are those of the intent and of the edge.
  pub record IsBound : Type 0 where
    pub audience :
        canonical_equal v (obj (audience_dict p.audience)) (obj (audience_dict context.audience))
        ≡ true
    pub boundary : within_boundary v v.boundary_id p ≡ true
    pub target : canonical_equal v (obj (target_dict p.target)) (obj (target_dict i.target)) ≡ true
    pub exact : p.scope.mode ≡ "exact"
    pub single_use : p.scope.single_use ≡ true
    pub capability_signed : v.capability_in_scope i.action.capability p.scope.capabilities ≡ true
    pub capability_declared :
        v.capability_in_scope i.action.capability context.scope_capabilities ≡ true
    pub intent : same_intent v p.intent_id i ≡ true
    pub tenant : canonical_equal v (obj (tenant_dict p.tenant)) (obj (tenant_dict i.tenant)) ≡ true
    pub subject :
        canonical_equal v (obj (party_dict p.subject)) (obj (party_dict i.requester)) ≡ true
    pub action : canonical_equal v (obj (action_dict p.action)) (obj (action_dict i.action)) ≡ true

  -- The proof carries the hash of this intent, under an accepted profile.
  pub record IsHashed : Type 0 where
    pub hash_input : String
    pub canonical : v.canonicalize_bytes (obj (build_action_hash_input i)) ≡ some hash_input
    pub digest : p.action_hash.value ≡ v.sha256 hash_input
    pub algorithm : p.action_hash.algorithm ≡ "sha-256"
    pub profile : contains ⦃e = string_eq⦄ v.accepted_profiles p.action_hash.canonicalization ≡ true

  -- What the edge declares holds of the proof, and the authority behind it is not revoked.
  pub record IsAdmitted : Type 0 where
    pub constraints :
        constraints_signed v p.scope.parameter_constraints context.parameter_constraints ≡ true
    pub selectors : selectors_met v p.target context.resource_selectors ≡ true
    pub standing : not_revoked v v.revocation_checker (authority_revocable v p) p context ≡ true

  -- the contract of a payload is always the supported one
  contract_supported : supported_contract (get (unsigned_payload p) "contract") ≡ true
  unfolding unsigned_payload
  contract_supported =
      rw
        (contract_kept (obj (contract_dict "pccb")) _ p.intent_id p.escrow_id p.scope.single_use
          p.extensions)
        refl

  pub place_ok : is_ok (check_place v i p context) ≡ (
      canonical_equal v (obj (audience_dict p.audience)) (obj (audience_dict context.audience))
      && (within_boundary v v.boundary_id p
          && canonical_equal v (obj (target_dict p.target)) (obj (target_dict i.target))))
  unfolding check_place ◌⨾◌ require
  place_ok = ground arith

  pub scope_ok : is_ok (check_scope v i p context) ≡ (
      (p.scope.mode == "exact" && p.scope.single_use)
      && (v.capability_in_scope i.action.capability p.scope.capabilities
          && v.capability_in_scope i.action.capability context.scope_capabilities))
  unfolding check_scope ◌⨾◌ require
  scope_ok = ground arith

  pub check_time-IsCurrent : (is_ok (check_time v p context) ≡ true) ↔ IsCurrent
  unfolding check_time ◌⨾◌ require
  check_time-IsCurrent = (
    λ h. record {
      begun = ground arith;
      unexpired = ground arith;
      in_range = ground arith;
      after_min = ground arith;
    },
    λ h. ground (arith, h.begun, h.unexpired, h.in_range, h.after_min),
  )

  pub authenticate-IsAuthentic : (is_ok (authenticate v p) ≡ true) ↔ IsAuthentic
  unfolding authenticate check_signature ◌⨾◌ require
  authenticate-IsAuthentic =
      rw contract_supported (elim (Option-cases (v.canonicalize_bytes (obj (unsigned_payload p)))) [
        | inl e ↦ rw e ((λ h. ground arith), (λ h. absurd (cc (e, h.canonical))))
        | inr (payload, e) ↦ rw e (
          (λ h. record {
            payload = payload;
            canonical = e;
            signed = ground arith;
            well_formed = ground arith;
          }),
          (λ h. ground (arith, h.canonical, h.signed, h.well_formed, e)),
        )
      ])

  pub action_ok : is_ok (check_action v i p) ≡ (
      same_intent v p.intent_id i
      && (canonical_equal v (obj (tenant_dict p.tenant)) (obj (tenant_dict i.tenant))
          && (canonical_equal v (obj (party_dict p.subject)) (obj (party_dict i.requester))
              && canonical_equal v (obj (action_dict p.action)) (obj (action_dict i.action)))))
  unfolding check_action ◌⨾◌ require
  action_ok = ground arith

  pub edge_ok : is_ok (check_edge v p context) ≡ (
      constraints_signed v p.scope.parameter_constraints context.parameter_constraints
      && selectors_met v p.target context.resource_selectors)
  unfolding check_edge ◌⨾◌ require
  edge_ok = ground arith

  pub revocation_ok :
      is_ok (check_revocation v p context)
      ≡ not_revoked v v.revocation_checker (authority_revocable v p) p context
  unfolding check_revocation require
  revocation_ok = ground arith

  pub digest_ok :
      (canonical : String)
      → is_ok (check_digest v p (some canonical)) ≡ (
          (p.action_hash.algorithm == "sha-256"
            && contains v.accepted_profiles p.action_hash.canonicalization)
          && p.action_hash.value == v.sha256 canonical)
  unfolding check_digest ◌⨾◌ require
  digest_ok canonical = ground arith
