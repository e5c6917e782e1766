-- ===== src/Minter/Accepted.antt =====
-- `PCCBMinter.mint` against `PCCBVerifier.verify` (actenon/proof/service.py).
use actenon_kernel.Prelude.{
  Bool-cases, List, Option, String, ap, arith, contains, eq_iff, inl, inr, none, refl, some,
  sorted_set, string_eq, true, ◌+◌, ◌≡◌, ◌≤◌,
}
use actenon_kernel.Json.{obj}
use actenon_kernel.Core.Refusal.{Result, is_ok, ok, raised, refused}
use actenon_kernel.Core.Time.{Time, max_time}
use actenon_kernel.Contracts.{
  DynamicContextInput, Pccb, PolicyDecision, action_dict, allowed, audience_dict, party_dict,
  target_dict, tenant_dict, unsigned_payload,
}
use actenon_kernel.Verifier.{
  Verifier, authority_revocable, build_action_hash_input, canonical_equal, constraints_signed,
  not_revoked, selectors_met, signature_well_formed, verify, within_boundary,
}
use actenon_kernel.Verifier.Accepts.{IsAccepted, verify_accepts}
use actenon_kernel.Minter.{
  Minter, Minting, mint, mint_with, sign_proof, signed_proof, unsigned_proof,
}

-- the proof of a result, if there is one
proof_or : Pccb → Result Pccb → Pccb
proof_or d (ok p) = p
proof_or d (refused r) = d
proof_or d raised = d

ok_injective : (p q : Pccb) → ok p ≡ ok q → p ≡ q
unfolding proof_or
ok_injective p q h = ap (proof_or p) h

-- the edge at a later time
abbrev pub later_context : DynamicContextInput → Time → DynamicContextInput
later_context context later = record context { now = later }

-- The verifier trusts the minter's key and profile, and what the edge declares is canonical and holds
-- of the intent.
pub record Trusts (v : Verifier) (m : Minter) (g : Minting) (later : Time) : Type 0 where
  pub knows_key :
      (payload : String) (p : Pccb)
      → p.signature ≡ m.sign payload
      → v.signature_valid payload p ≡ true
  pub well_signed : (payload : String) → signature_well_formed (m.sign payload) ≡ true
  pub profile : contains ⦃e = string_eq⦄ v.accepted_profiles m.profile ≡ true
  pub minted_scope :
      (capabilities : List String)
      → m.scope_capabilities_for_mint g.context.scope_capabilities ≡ some capabilities
      → v.capability_in_scope g.intent.action.capability (sorted_set capabilities) ≡ true
  pub declared :
      v.capability_in_scope g.intent.action.capability g.context.scope_capabilities ≡ true
  pub boundary :
      (p : Pccb) → p.audience ≡ g.context.audience → within_boundary v v.boundary_id p ≡ true
  pub audience_form :
      canonical_equal v
        (obj (audience_dict g.context.audience))
        (obj (audience_dict g.context.audience))
      ≡ true
  pub target_form :
      canonical_equal v (obj (target_dict g.intent.target)) (obj (target_dict g.intent.target))
      ≡ true
  pub tenant_form :
      canonical_equal v (obj (tenant_dict g.intent.tenant)) (obj (tenant_dict g.intent.tenant))
      ≡ true
  pub party_form :
      canonical_equal v (obj (party_dict g.intent.requester)) (obj (party_dict g.intent.requester))
      ≡ true
  pub action_form :
      canonical_equal v (obj (action_dict g.intent.action)) (obj (action_dict g.intent.action))
      ≡ true
  pub constraints_form :
      constraints_signed v g.context.parameter_constraints g.context.parameter_constraints ≡ true
  pub selectors : selectors_met v g.intent.target g.context.resource_selectors ≡ true
  pub standing :
      (p : Pccb)
      → p.extensions ≡ g.extensions
      → not_revoked v v.revocation_checker
          (authority_revocable v p)
          p
          (later_context g.context later)
        ≡ true

module _ (v : Verifier) (m : Minter) (g : Minting) (later : Time) (trusts : Trusts v m g later)
    (begun : g.context.now ≤ later + v.clock_skew_tolerance)
    (unexpired : later ≤ g.intent.expires_at + v.clock_skew_tolerance)
    (in_range : later + v.clock_skew_tolerance ≤ max_time)
    (after_min : v.clock_skew_tolerance ≤ later) where
  module _ (capabilities : List String) (input payload : String)
      (scoped : m.scope_capabilities_for_mint g.context.scope_capabilities ≡ some capabilities)
      (hashed : v.canonicalize_bytes (obj (build_action_hash_input g.intent)) ≡ some input) where
    abbrev minted : Pccb
    minted = signed_proof m (unsigned_proof m g capabilities (v.sha256 input)) payload

    minted-IsAccepted :
        v.canonicalize_bytes (obj (unsigned_payload minted)) ≡ some payload
        → IsAccepted v g.intent minted (later_context g.context later)
    minted-IsAccepted canonical = record {
      authentic = record {
        payload = payload;
        canonical = canonical;
        signed = trusts.knows_key payload minted refl;
        well_formed = trusts.well_signed payload;
      };
      current = record {
        begun = begun;
        unexpired = unexpired;
        in_range = in_range;
        after_min = after_min;
      };
      bound = record {
        audience = trusts.audience_form;
        boundary = trusts.boundary minted refl;
        target = trusts.target_form;
        exact = refl;
        single_use = refl;
        capability_signed = trusts.minted_scope capabilities scoped;
        capability_declared = trusts.declared;
        intent = ground (arith, eq_iff g.intent.intent_id g.intent.intent_id);
        tenant = trusts.tenant_form;
        subject = trusts.party_form;
        action = trusts.action_form;
      };
      hashed = record {
        hash_input = input;
        canonical = hashed;
        digest = refl;
        algorithm = refl;
        profile = trusts.profile;
      };
      admitted = record {
        constraints = trusts.constraints_form;
        selectors = trusts.selectors;
        standing = trusts.standing minted refl;
      };
    }

  module _ (p : Pccb) where
    abbrev Accepts : Type 0
    Accepts = is_ok (verify v g.intent p (later_context g.context later)) ≡ true

    sign_accepted :
        (capabilities : List String) (input : String) (payload : Option String)
        → m.scope_capabilities_for_mint g.context.scope_capabilities ≡ some capabilities
        → v.canonicalize_bytes (obj (build_action_hash_input g.intent)) ≡ some input
        → v.canonicalize_bytes
            (obj (unsigned_payload (unsigned_proof m g capabilities (v.sha256 input))))
          ≡ payload
        → sign_proof m (unsigned_proof m g capabilities (v.sha256 input)) payload ≡ ok p
        → Accepts
    unfolding sign_proof unsigned_payload
    sign_accepted capabilities input none scoped hashed canonical h = absurd (cc h)
    sign_accepted capabilities input (some payload) scoped hashed canonical h =
        rw (← ok_injective (minted capabilities input payload scoped hashed) p h) (
          (verify_accepts v g.intent (minted capabilities input payload scoped hashed)
              (later_context g.context later)).1
            (minted-IsAccepted capabilities input payload scoped hashed canonical))

    parts_accepted :
        (capabilities : Option (List String)) (input : Option String)
        → m.scope_capabilities_for_mint g.context.scope_capabilities ≡ capabilities
        → v.canonicalize_bytes (obj (build_action_hash_input g.intent)) ≡ input
        → mint_with v.libraries m g capabilities input ≡ ok p
        → Accepts
    unfolding mint_with
    parts_accepted none input scoped hashed h = absurd (cc h)
    parts_accepted (some capabilities) none scoped hashed h = absurd (cc h)
    parts_accepted (some capabilities) (some input) scoped hashed h =
        sign_accepted capabilities input _ scoped hashed refl h

    -- Every proof that `mint` returns is accepted by `verify` for the same intent at a later time
    -- in its window, if the verifier trusts the minter's key and profile, the protocol package
    -- keeps the capability in the minted scope and in the edge's, the fields that are compared and
    -- the declared constraints have canonical forms, the boundary and a selector fit, and the
    -- authority is not revoked.
    pub mint_accepted :
        (decision : PolicyDecision)
        → mint v.libraries m decision g ≡ ok p
        → is_ok (verify v g.intent p (later_context g.context later)) ≡ true
    unfolding mint
    mint_accepted decision h = elim (Bool-cases (allowed decision)) [
      | inl a ↦ parts_accepted _ _ refl refl (rw a at h)
      | inr b ↦ absurd (cc (rw b at h))
    ]
