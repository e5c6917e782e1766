-- ===== src/Minter/Tests.antt =====
-- The refund of the verifier's tests, minted and then presented two seconds later.
use actenon_kernel.Prelude.{
  Bool, List, Option, String, [], ap, arith, contains, false, is_some, nat_eq, none, refl, some,
  sorted_set, string_eq, sym, true, ◌==◌, ◌∷◌, ◌≡◌,
}
use actenon_kernel.Json.{Fields, end, get, obj}
use actenon_kernel.Core.Refusal.{is_ok, ok, raised}
use actenon_kernel.Contracts.{AudienceRef, Pccb, PolicyDecision, SignatureSpec, unsigned_payload}
use actenon_kernel.Verifier.{build_action_hash_input, trusted_detailed, verify}
use actenon_kernel.Verifier.Tests.{agent, edge, here, refund_of, render}
use actenon_kernel.Minter.{Minter, Minting, mint, signed_proof, unsigned_proof}
use actenon_kernel.Minter.Accepted.{Trusts, later_context, mint_accepted}

abbrev pub issuer_key : Minter
issuer_key = record {
  scope_capabilities_for_mint = λ capabilities. some capabilities;
  profile = "strict";
  algorithm = "ed25519";
  key_id = "key-1";
  sign = λ payload. record {
    algorithm = "ed25519";
    key_id = "key-1";
    encoding = "base64url";
    value = "s";
  };
  issuer = agent;
  new_pccb_id = "p-2";
  new_nonce = "n-2";
}

abbrev pub minting : Minting
minting = record { intent = refund_of "5"; context = here; escrow_id = none; extensions = end }

abbrev pub allow : PolicyDecision
allow = record {
  outcome = "allow";
  summary = "Refunds";
  rule_evaluations = [];
  reason_codes = [];
  required_evidence = [];
  approver_types = [];
}

abbrev denied : PolicyDecision
denied = record allow { outcome = "deny" }

abbrev before : Pccb
before =
    unsigned_proof issuer_key minting ("payment.refund" ∷ [])
      (render (obj (build_action_hash_input (refund_of "5"))))

abbrev after : Pccb
after = signed_proof issuer_key before (render (obj (unsigned_payload before)))

minted_there : mint (edge trusted_detailed).libraries issuer_key allow minting ≡ ok after
unfolding mint
minted_there = refl

not_minted : mint (edge trusted_detailed).libraries issuer_key denied minting ≡ raised
unfolding mint
not_minted = refl

-- whether the capability is among the minted ones
abbrev in_minted : Option (List String) → Bool
in_minted none = false
in_minted (some capabilities) = contains (sorted_set capabilities) "payment.refund"

pub edge-Trusts :
    (escrow_id : Option String)
    → Trusts (edge trusted_detailed) issuer_key (record minting { escrow_id = escrow_id }) 12000000
unfolding render
edge-Trusts escrow_id = record {
  knows_key = λ payload p e. ap (λ (s : SignatureSpec). s.key_id == "key-1") e;
  well_signed = λ payload. refl;
  profile = refl;
  minted_scope = λ capabilities e. sym (ap in_minted e);
  declared = refl;
  boundary = λ p e. ap (λ (a : AudienceRef). a.id == "edge") e;
  audience_form = refl;
  target_form = refl;
  tenant_form = refl;
  party_form = refl;
  action_form = refl;
  constraints_form = refl;
  selectors = refl;
  standing = λ p e.
      let absent : is_some (get p.extensions "authority") ≡ false =
        ap (λ (x : Fields). is_some (get x "authority")) e in
      rw absent refl;
}

mint_accepted_example :
    is_ok (verify (edge trusted_detailed) (refund_of "5") after (later_context here 12000000))
    ≡ true
mint_accepted_example =
    mint_accepted (edge trusted_detailed) issuer_key minting 12000000 (edge-Trusts none)
      (omega arith) (omega arith) (omega arith) (omega arith) after allow minted_there
