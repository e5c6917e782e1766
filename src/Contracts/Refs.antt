-- ===== src/Contracts/Refs.antt =====
-- The parts of the contracts of actenon/models/contracts.py, and their `to_dict`.
use actenon_kernel.Prelude.{Bool, List, Option, String, [], ◌∷◌}
use actenon_kernel.Json.{
  Fields, Items, arr, bool, cons, end, field, nil, obj, put_fields, put_items, put_some, str,
  strings,
}

pub record TenantRef : Type 0 where
  pub tenant_id : String
  pub attributes : Fields

pub record PartyRef : Type 0 where
  pub type : String
  pub id : String
  pub display_name : Option String
  pub attributes : Fields

pub record AudienceRef : Type 0 where
  pub type : String
  pub id : String
  pub uri : Option String

pub record ActionSpec : Type 0 where
  pub name : String
  pub capability : String
  pub parameters : Fields
  pub constraints : Fields
  pub scope : Fields

pub record TargetRef : Type 0 where
  pub resource_type : String
  pub resource_id : String
  pub uri : Option String
  pub selectors : Fields

pub record EvidenceRef : Type 0 where
  pub type : String
  pub value : String
  pub digest : Fields

pub record ScopeSpec : Type 0 where
  pub mode : String
  pub capabilities : List String
  pub single_use : Bool
  pub resource_selectors : List Fields
  pub parameter_constraints : Fields

pub record ActionHashSpec : Type 0 where
  pub algorithm : String
  pub canonicalization : String
  pub value : String

pub record SignatureSpec : Type 0 where
  pub algorithm : String
  pub key_id : String
  pub encoding : String
  pub value : String

-- a list of objects as a JSON array
abbrev pub objects : List Fields → Items
objects [] = nil
objects (fs ∷ rest) = cons (obj fs) (objects rest)

-- the `to_dict` of each
abbrev pub tenant_dict : TenantRef → Fields
tenant_dict t = put_fields (field "tenant_id" (str t.tenant_id) end) "attributes" t.attributes

abbrev pub party_dict : PartyRef → Fields
party_dict p =
    put_fields
      (put_some (field "type" (str p.type) (field "id" (str p.id) end)) "display_name"
        p.display_name)
      "attributes" p.attributes

abbrev pub audience_dict : AudienceRef → Fields
audience_dict a = put_some (field "type" (str a.type) (field "id" (str a.id) end)) "uri" a.uri

abbrev pub action_dict : ActionSpec → Fields
action_dict a =
    put_fields
      (put_fields
        (field "name" (str a.name)
          (field "capability" (str a.capability) (field "parameters" (obj a.parameters) end)))
        "constraints" a.constraints)
      "scope" a.scope

abbrev pub target_dict : TargetRef → Fields
target_dict t =
    put_fields
      (put_some
        (field "resource_type" (str t.resource_type) (field "resource_id" (str t.resource_id) end))
        "uri" t.uri)
      "selectors" t.selectors

abbrev pub evidence_dict : EvidenceRef → Fields
evidence_dict e =
    put_fields (field "type" (str e.type) (field "value" (str e.value) end)) "digest" e.digest

abbrev pub scope_dict : ScopeSpec → Fields
scope_dict s =
    put_fields
      (put_items
        (field "mode" (str s.mode) (
          field "capabilities" (arr (strings s.capabilities))
            (field "single_use" (bool s.single_use) end)))
        "resource_selectors" (objects s.resource_selectors))
      "parameter_constraints" s.parameter_constraints

abbrev pub action_hash_dict : ActionHashSpec → Fields
action_hash_dict h =
    field "algorithm" (str h.algorithm)
      (field "canonicalization" (str h.canonicalization) (field "value" (str h.value) end))

abbrev pub signature_dict : SignatureSpec → Fields
signature_dict s = field "algorithm" (str s.algorithm) (
    field "key_id" (str s.key_id)
      (field "encoding" (str s.encoding) (field "value" (str s.value) end)))
