-- ===== src/Verifier/Tests.antt =====
-- A proof for one refund at one edge, and each theorem at it.
use actenon_kernel.Prelude.{
  String, [], contains, false, map, nat_eq, none, refl, some, string_eq, true, ◌==◌, ◌↔◌, ◌∷◌, ◌≡◌,
  ◌≢◌,
}
use actenon_kernel.Json.{
  Fields, Items, Json, arr, bool, cons, end, field, float, int, nil, null, obj, str,
}
use actenon_kernel.Core.Refusal.{is_ok, proof_error, refused}
use actenon_kernel.Core.Format.{concat, format_timestamp}
use actenon_kernel.Contracts.{
  ActionIntent, ActionSpec, AudienceRef, DynamicContextInput, PartyRef, Pccb, TargetRef,
  unsigned_payload,
}
use actenon_kernel.Verifier.Checks.{
  Verifier, VerifierDisclosureMode, local_debug, public_generic, require, trusted_detailed, ◌⨾◌,
}
use actenon_kernel.Verifier.Service.{
  authenticate, build_action_hash_input, check_action, check_edge, check_hash, check_place,
  check_revocation, check_scope, check_time, verify,
}
use actenon_kernel.Verifier.Accepts.{IsAccepted, verify_accepts}
use actenon_kernel.Verifier.Disclosure.{forged_refused}

-- A canonical form that is good for the texts here: no text has a quote.
unfoldable mutual
  pub render : Json → String
  render null = "null"
  render (bool true) = "true"
  render (bool false) = "false"
  render (int n) = "0"
  render (float s) = s
  render (str s) = concat ("'" ∷ s ∷ "'" ∷ [])
  render (arr xs) = concat ("[" ∷ render_items xs ∷ "]" ∷ [])
  render (obj fs) = concat ("{" ∷ render_fields fs ∷ "}" ∷ [])

  render_items : Items → String
  render_items nil = ""
  render_items (cons x xs) = concat (render x ∷ "," ∷ render_items xs ∷ [])

  render_fields : Fields → String
  render_fields end = ""
  render_fields (field k x fs) = concat (k ∷ ":" ∷ render x ∷ "," ∷ render_fields fs ∷ [])

abbrev pub edge : VerifierDisclosureMode → Verifier
edge mode = record {
  libraries = record {
    canonicalize_bytes = λ x. some (render x);
    sha256 = λ s. s;
    capability_in_scope = λ c cs. contains cs c;
    accepted_profiles = "strict" ∷ [];
    parse_authority_extension = λ _. none;
  };
  signature_valid = λ payload p. p.signature.key_id == "key-1";
  clock_skew_tolerance = 5000000;
  disclosure_mode = mode;
  revocation_checker = none;
  boundary_id = some "edge";
}

abbrev pub agent : PartyRef
agent = record { type = "agent"; id = "a-1"; display_name = none; attributes = end }

abbrev pub service : AudienceRef
service = record { type = "service"; id = "edge"; uri = none }

abbrev pub order : TargetRef
order = record { resource_type = "order"; resource_id = "o-1"; uri = none; selectors = end }

abbrev pub pay : String → ActionSpec
pay amount = record {
  name = "refund";
  capability = "payment.refund";
  parameters = field "amount" (str amount) end;
  constraints = end;
  scope = end;
}

abbrev pub refund_of : String → ActionIntent
refund_of amount = record {
  intent_id = "i-1";
  issued_at = 1000000;
  expires_at = 61000000;
  tenant = record { tenant_id = "t-1"; attributes = end };
  requester = agent;
  action = pay amount;
  target = order;
  idempotency_key = none;
  justification = none;
  context = end;
  evidence_refs = [];
  metadata = end;
  extensions = end;
}

abbrev pub signed_by : String → Pccb
signed_by key_id = record {
  pccb_id = "p-1";
  issued_at = 2000000;
  not_before = 12000000;
  expires_at = 62000000;
  issuer = agent;
  subject = agent;
  tenant = record { tenant_id = "t-1"; attributes = end };
  audience = service;
  action = pay "5";
  target = order;
  scope = record {
    mode = "exact";
    capabilities = "payment.refund" ∷ [];
    single_use = true;
    resource_selectors = [];
    parameter_constraints = field "currency" (str "EUR") end;
  };
  nonce = "n-1";
  action_hash = record {
    algorithm = "sha-256";
    canonicalization = "strict";
    value = render (obj (build_action_hash_input (refund_of "5")));
  };
  signature = record {
    algorithm = "ed25519";
    key_id = key_id;
    encoding = "base64url";
    value = "s";
  };
  intent_id = some "i-1";
  escrow_id = none;
  extensions = end;
}

abbrev pub here : DynamicContextInput
here = record {
  request_id = "r-1";
  audience = service;
  scope_capabilities = "payment.refund" ∷ [];
  now = 10000000;
  facts = end;
  parameter_constraints = field "currency" (str "EUR") end;
  resource_selectors = field "resource_id" (str "o-1") end ∷ [];
  required_evidence_types = [];
  approver_types = [];
  max_ttl_seconds = none;
}

-- a fraction, a leap day, and the last days of a span of 400 and of 100 years
written :
    map format_timestamp (
      63902822400500000 ∷ 63844847947000000 ∷ 63113817600000000 ∷ 59931705600000000
      ∷ 315537854400000001 ∷ [])
    ≡ "2026-01-01T00:00:00.500000Z" ∷ "2024-02-29T23:59:07Z" ∷ "2000-12-31T00:00:00Z"
      ∷ "1900-03-01T00:00:00Z" ∷ "9999-12-31T12:00:00.000001Z" ∷ []
unfolding format_timestamp
written = refl

-- within the tolerance of the clock, five seconds before `not_before`
accepted : is_ok (verify (edge trusted_detailed) (refund_of "5") (signed_by "key-1") here) ≡ true
unfolding verify check_hash check_revocation check_time check_place check_scope check_action
    check_edge authenticate unsigned_payload build_action_hash_input render require ◌⨾◌
accepted = refl

-- another amount
tampered :
    verify (edge trusted_detailed) (refund_of "6") (signed_by "key-1") here
    ≡ refused (proof_error "ACTION_MISMATCH")
unfolding verify check_hash check_revocation check_time check_place check_scope check_action
    check_edge authenticate unsigned_payload build_action_hash_input render require ◌⨾◌
tampered = refl

forged : is_ok (authenticate (edge trusted_detailed) (signed_by "key-2")) ≡ false
unfolding authenticate unsigned_payload require ◌⨾◌
forged = refl

not_debug : trusted_detailed ≢ local_debug
not_debug e = cc e

hidden :
    verify (edge public_generic) (refund_of "6") (signed_by "key-1") here
    ≡ refused (proof_error "PROOF_INVALID")
unfolding verify check_hash check_revocation check_time check_place check_scope check_action
    check_edge authenticate unsigned_payload build_action_hash_input render require ◌⨾◌
hidden = refl

verify_accepts_example :
    (is_ok (verify (edge trusted_detailed) (refund_of "5") (signed_by "key-1") here) ≡ true)
    ↔ IsAccepted (edge trusted_detailed) (refund_of "5") (signed_by "key-1") here
verify_accepts_example =
    verify_accepts (edge trusted_detailed) (refund_of "5") (signed_by "key-1") here

forged_refused_example :
    verify (edge trusted_detailed) (refund_of "5") (signed_by "key-2") here
    ≡ refused (proof_error "PROOF_INVALID")
forged_refused_example =
    forged_refused (edge trusted_detailed) (refund_of "5") (signed_by "key-2") here not_debug forged
