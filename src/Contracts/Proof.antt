-- ===== src/Contracts/Proof.antt =====
-- `PCCB` of actenon/models/contracts.py: the proof that an issuer signs.
use actenon_kernel.Prelude.{Bool, Option, String, none, some}
use actenon_kernel.Json.{Fields, bool, end, field, obj, put, put_fields, put_some, str}
use actenon_kernel.Core.Time.{Time}
use actenon_kernel.Core.Format.{format_timestamp}
use actenon_kernel.Contracts.Refs.{
  ActionHashSpec, ActionSpec, AudienceRef, PartyRef, ScopeSpec, SignatureSpec, TargetRef, TenantRef,
  action_dict, action_hash_dict, audience_dict, party_dict, scope_dict, signature_dict, target_dict,
  tenant_dict,
}
use actenon_kernel.Contracts.Intent.{contract_dict}

pub record Pccb : Type 0 where
  pub pccb_id : String
  pub issued_at : Time
  pub not_before : Time
  pub expires_at : Time
  pub issuer : PartyRef
  pub subject : PartyRef
  pub tenant : TenantRef
  pub audience : AudienceRef
  pub action : ActionSpec
  pub target : TargetRef
  pub scope : ScopeSpec
  pub nonce : String
  pub action_hash : ActionHashSpec
  pub signature : SignatureSpec
  pub intent_id : Option String
  pub escrow_id : Option String
  pub extensions : Fields

-- the escrow reference of `unsigned_payload`
abbrev pub put_escrow : Fields → Option String → Bool → Fields
put_escrow payload none single_use = payload
put_escrow payload (some id) single_use =
    put payload "escrow_reference"
      (obj (field "escrow_id" (str id) (field "single_use" (bool single_use) end)))

-- What the issuer signs.
unfoldable pub unsigned_payload : Pccb → Fields
unfolding format_timestamp
unsigned_payload p =
    let required = field "contract" (obj (contract_dict "pccb")) (
      field "pccb_id" (str p.pccb_id) (
        field "issued_at" (str (format_timestamp p.issued_at)) (
          field "not_before" (str (format_timestamp p.not_before)) (
            field "expires_at" (str (format_timestamp p.expires_at)) (
              field "issuer" (obj (party_dict p.issuer)) (
                field "subject" (obj (party_dict p.subject)) (
                  field "tenant" (obj (tenant_dict p.tenant)) (
                    field "audience" (obj (audience_dict p.audience)) (
                      field "action" (obj (action_dict p.action)) (
                        field "target" (obj (target_dict p.target)) (
                          field "scope" (obj (scope_dict p.scope)) (
                            field "nonce" (str p.nonce) (
                              field "action_hash" (obj (action_hash_dict p.action_hash))
                                end))))))))))))) in
    put_fields
      (put_escrow (put_some required "intent_id" p.intent_id) p.escrow_id p.scope.single_use)
      "extensions" p.extensions

-- `to_dict`
unfoldable pub pccb_dict : Pccb → Fields
unfolding unsigned_payload
pccb_dict p = put (unsigned_payload p) "signature" (obj (signature_dict p.signature))
