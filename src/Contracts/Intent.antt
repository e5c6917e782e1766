-- ===== src/Contracts/Intent.antt =====
-- `ActionIntent` of actenon/models/contracts.py. Its metadata are JSON scalars.
use actenon_kernel.Prelude.{List, Option, String, map}
use actenon_kernel.Json.{Fields, end, field, obj, put_fields, put_items, put_some, str}
use actenon_kernel.Core.Time.{Time}
use actenon_kernel.Core.Format.{format_timestamp}
use actenon_kernel.Contracts.Refs.{
  ActionSpec, EvidenceRef, PartyRef, TargetRef, TenantRef, action_dict, evidence_dict, objects,
  party_dict, target_dict, tenant_dict,
}

pub record ActionIntent : Type 0 where
  pub intent_id : String
  pub issued_at : Time
  pub expires_at : Time
  pub tenant : TenantRef
  pub requester : PartyRef
  pub action : ActionSpec
  pub target : TargetRef
  pub idempotency_key : Option String
  pub justification : Option String
  pub context : Fields
  pub evidence_refs : List EvidenceRef
  pub metadata : Fields
  pub extensions : Fields

-- `"contract": {"name": name, "version": "v1"}`
abbrev pub contract_dict : String → Fields
contract_dict name = field "name" (str name) (field "version" (str "v1") end)

-- `to_dict`
unfoldable pub intent_dict : ActionIntent → Fields
unfolding format_timestamp
intent_dict i =
    let required = field "contract" (obj (contract_dict "action_intent")) (
      field "intent_id" (str i.intent_id) (
        field "issued_at" (str (format_timestamp i.issued_at)) (
          field "expires_at" (str (format_timestamp i.expires_at)) (
            field "tenant" (obj (tenant_dict i.tenant)) (
              field "requester" (obj (party_dict i.requester)) (
                field "action" (obj (action_dict i.action))
                  (field "target" (obj (target_dict i.target)) end))))))) in
    let named =
      put_some (put_some required "idempotency_key" i.idempotency_key) "justification"
        i.justification in
    let evidence =
      put_items (put_fields named "context" i.context) "evidence_refs"
        (objects (map evidence_dict i.evidence_refs)) in
    put_fields (put_fields evidence "metadata" i.metadata) "extensions" i.extensions
