-- ===== src/Minter.antt =====
-- `PCCBMinter` of actenon/proof/service.py: the proof that is signed for an allowed intent.
pub mod Accepted
pub mod Tests
use actenon_kernel.Prelude.{List, Option, String, if◌then◌else◌, none, not, some, sorted_set, true}
use actenon_kernel.Json.{Fields, obj}
use actenon_kernel.Core.Refusal.{Result, ok, raised}
use actenon_kernel.Contracts.{
  ActionIntent, DynamicContextInput, PartyRef, Pccb, PolicyDecision, SignatureSpec, allowed,
  unsigned_payload,
}
use actenon_kernel.Verifier.{Libraries, build_action_hash_input}

-- `PCCBMinter`, the signer that it holds, and what its factories return in this call. The protocol
-- package gives `scope_capabilities_for_mint` (none if it raises) and the name of the profile. The
-- audit sink only receives a copy and is left out.
pub record Minter : Type 0 where
  pub scope_capabilities_for_mint : List String → Option (List String)
  pub profile : String
  pub algorithm : String
  pub key_id : String
  pub sign : String → SignatureSpec
  pub issuer : PartyRef
  pub new_pccb_id : String
  pub new_nonce : String

-- the arguments of `mint` beside the policy's decision
pub record Minting : Type 0 where
  pub intent : ActionIntent
  pub context : DynamicContextInput
  pub escrow_id : Option String
  pub extensions : Fields

-- the proof before it is signed, over the scope and the hash of the intent
abbrev pub unsigned_proof : Minter → Minting → List String → String → Pccb
unsigned_proof m g capabilities digest = record {
  pccb_id = m.new_pccb_id;
  issued_at = g.context.now;
  not_before = g.context.now;
  expires_at = g.intent.expires_at;
  issuer = m.issuer;
  subject = g.intent.requester;
  tenant = g.intent.tenant;
  audience = g.context.audience;
  action = g.intent.action;
  target = g.intent.target;
  scope = record {
    mode = "exact";
    capabilities = sorted_set capabilities;
    single_use = true;
    resource_selectors = g.context.resource_selectors;
    parameter_constraints = g.context.parameter_constraints;
  };
  nonce = m.new_nonce;
  action_hash = record { algorithm = "sha-256"; canonicalization = m.profile; value = digest };
  signature = record {
    algorithm = m.algorithm;
    key_id = m.key_id;
    encoding = "base64url";
    value = "pending";
  };
  intent_id = some g.intent.intent_id;
  escrow_id = g.escrow_id;
  extensions = g.extensions;
}

abbrev pub signed_proof : Minter → Pccb → String → Pccb
signed_proof m p payload = record p { signature = m.sign payload }

unfoldable pub sign_proof : Minter → Pccb → Option String → Result Pccb
sign_proof m p none = raised
sign_proof m p (some payload) = ok (signed_proof m p payload)

-- what follows the scope and the hash, each of which may raise
unfoldable pub mint_with :
    Libraries → Minter → Minting → Option (List String) → Option String → Result Pccb
unfolding sign_proof
mint_with l m g none hash_input = raised
mint_with l m g (some capabilities) none = raised
mint_with l m g (some capabilities) (some input) =
    let p = unsigned_proof m g capabilities (l.sha256 input) in
    sign_proof m p (l.canonicalize_bytes (obj (unsigned_payload p)))

-- `PCCBMinter.mint`
unfoldable pub mint : Libraries → Minter → PolicyDecision → Minting → Result Pccb
unfolding mint_with
mint l m decision g =
    if not (allowed decision)
    then raised
    else mint_with l m g (m.scope_capabilities_for_mint g.context.scope_capabilities)
        (l.canonicalize_bytes (obj (build_action_hash_input g.intent)))
