-- ===== src/Verifier/Service.antt =====
-- `PCCBVerifier.verify`, in the order of its steps.
use actenon_kernel.Prelude.{
  Bool, List, Option, String, [], any, contains, false, if◌then◌else◌, is_some, leb, ltb, nat_eq,
  none, not, some, string_eq, true, ◌&&◌, ◌+◌, ◌-◌, ◌==◌, ◌||◌, ◌∷◌,
}
use actenon_kernel.Json.{Fields, Json, end, field, get, obj, str}
use actenon_kernel.Core.Refusal.{Refusal, raised, refused}
use actenon_kernel.Core.Time.{max_time}
use actenon_kernel.Core.Format.{format_timestamp}
use actenon_kernel.Contracts.{
  ActionIntent, DynamicContextInput, Pccb, SignatureSpec, TargetRef, action_dict, audience_dict,
  party_dict, target_dict, tenant_dict, unsigned_payload,
}
use actenon_kernel.Verifier.Checks.{
  Check, Verifier, post_auth_failure, pre_auth_failure, require, ◌⨾◌,
}

-- `_canonical_equal` of two values: a value that cannot be canonicalized is equal to none
abbrev pub both_equal : Option String → Option String → Bool
both_equal none b = false
both_equal (some x) none = false
both_equal (some x) (some y) = x == y

-- `contract.get(key) == text`
abbrev pub reads : Option Json → String → Bool
reads (some (str s)) text = s == text
reads _ text = false

abbrev pub supported_contract : Option Json → Bool
supported_contract (some (obj contract)) =
    reads (get contract "name") "pccb" && reads (get contract "version") "v1"
supported_contract _ = false

-- `_validate_signature_structure`
abbrev pub signature_well_formed : SignatureSpec → Bool
signature_well_formed s = not (s.value == "") && s.encoding == "base64url"

-- `build_action_hash_input`
unfoldable pub build_action_hash_input : ActionIntent → Fields
build_action_hash_input i = field "intent_id" (str i.intent_id) (
    field "tenant" (obj (tenant_dict i.tenant)) (
      field "requester" (obj (party_dict i.requester)) (
        field "action" (obj (action_dict i.action)) (
          field "target" (obj (target_dict i.target)) (
            field "issued_at" (str (format_timestamp i.issued_at))
              (field "expires_at" (str (format_timestamp i.expires_at)) end))))))

module _ (v : Verifier) where
  abbrev pub canonical_equal : Json → Json → Bool
  canonical_equal a b = both_equal (v.canonicalize_bytes a) (v.canonicalize_bytes b)

  -- the two failures in the mode of this verifier
  abbrev pub unauthentic : String → Refusal
  unauthentic code = pre_auth_failure v.disclosure_mode code

  abbrev pub mismatch : String → Refusal
  mismatch code = post_auth_failure v.disclosure_mode code

  -- steps 4 and 5, over the canonical payload
  unfoldable pub check_signature : Pccb → Option String → Check
  check_signature p none = refused (unauthentic "PROOF_PAYLOAD_INVALID")
  check_signature p (some payload) =
      require (v.signature_valid payload p) (unauthentic "SIGNATURE_INVALID")

  -- steps 1 to 5
  unfoldable pub authenticate : Pccb → Check
  unfolding check_signature
  authenticate p =
      require (supported_contract (get (unsigned_payload p) "contract"))
        (unauthentic "UNSUPPORTED_PROTOCOL_VERSION")
      ⨾ require (signature_well_formed p.signature) (unauthentic "SIGNATURE_INVALID")
      ⨾ check_signature p (v.canonicalize_bytes (obj (unsigned_payload p)))

  -- Step 6. A sum or a difference that leaves the range of `datetime` is an OverflowError.
  unfoldable pub check_time : Pccb → DynamicContextInput → Check
  check_time p context =
      if ltb max_time (context.now + v.clock_skew_tolerance)
      then raised
      else require (leb p.not_before (context.now + v.clock_skew_tolerance))
          (mismatch "PROOF_NOT_YET_VALID")
        ⨾ (if ltb context.now v.clock_skew_tolerance
            then raised
            else require (leb (context.now - v.clock_skew_tolerance) p.expires_at)
                (mismatch "PROOF_EXPIRED"))

  -- step 8: `boundary_id is None`, or the audience's id
  abbrev pub within_boundary : Option String → Pccb → Bool
  within_boundary none p = true
  within_boundary (some boundary) p = p.audience.id == boundary

  -- steps 7, 8 and 9
  unfoldable pub check_place : ActionIntent → Pccb → DynamicContextInput → Check
  check_place i p context =
      require
        (canonical_equal (obj (audience_dict p.audience)) (obj (audience_dict context.audience)))
        (mismatch "AUDIENCE_MISMATCH")
      ⨾ require (within_boundary v.boundary_id p) (mismatch "AUDIENCE_MISMATCH")
      ⨾ require (canonical_equal (obj (target_dict p.target)) (obj (target_dict i.target)))
          (mismatch "TARGET_MISMATCH")

  -- `not pccb.intent_id or pccb.intent_id == intent.intent_id`
  abbrev pub same_intent : Option String → ActionIntent → Bool
  same_intent none i = true
  same_intent (some id) i = id == "" || id == i.intent_id

  -- step 10: the scope, and the parties and the action of the intent
  unfoldable pub check_scope : ActionIntent → Pccb → DynamicContextInput → Check
  check_scope i p context =
      require (p.scope.mode == "exact" && p.scope.single_use) (mismatch "SCOPE_MODE_INVALID")
      ⨾ require (v.capability_in_scope i.action.capability p.scope.capabilities)
          (mismatch "SCOPE_CAPABILITY_MISMATCH")
      ⨾ require (v.capability_in_scope i.action.capability context.scope_capabilities)
          (mismatch "SCOPE_CAPABILITY_MISMATCH")

  unfoldable pub check_action : ActionIntent → Pccb → Check
  check_action i p =
      require (same_intent p.intent_id i) (mismatch "INTENT_MISMATCH")
      ⨾ require (canonical_equal (obj (tenant_dict p.tenant)) (obj (tenant_dict i.tenant)))
          (mismatch "TENANT_MISMATCH")
      ⨾ require (canonical_equal (obj (party_dict p.subject)) (obj (party_dict i.requester)))
          (mismatch "SUBJECT_MISMATCH")
      ⨾ require (canonical_equal (obj (action_dict p.action)) (obj (action_dict i.action)))
          (mismatch "ACTION_MISMATCH")

  -- step 11, over the canonical hash input
  unfoldable pub check_digest : Pccb → Option String → Check
  check_digest p none = refused (mismatch "ACTION_HASH_INVALID")
  check_digest p (some canonical) =
      require
        (p.action_hash.algorithm == "sha-256"
          && contains v.accepted_profiles p.action_hash.canonicalization)
        (mismatch "ACTION_HASH_ALGORITHM_INVALID")
      ⨾ require (p.action_hash.value == v.sha256 canonical) (mismatch "ACTION_HASH_MISMATCH")

  unfoldable pub check_hash : ActionIntent → Pccb → Check
  unfolding check_digest
  check_hash i p = check_digest p (v.canonicalize_bytes (obj (build_action_hash_input i)))

  -- a value that may be missing, and one that is wanted
  abbrev pub found_equal : Option Json → Json → Bool
  found_equal none wanted = false
  found_equal (some actual) wanted = canonical_equal actual wanted

  -- E2: every declared constraint was signed into the proof
  abbrev pub constraints_signed : Fields → Fields → Bool
  constraints_signed signed end = true
  constraints_signed signed (field key value rest) =
      found_equal (get signed key) value && constraints_signed signed rest

  -- the value of a target that a selector's key names
  abbrev pub selected : TargetRef → String → Option Json
  selected target key =
      if key == "resource_id"
      then some (str target.resource_id)
      else if key == "resource_type"
      then some (str target.resource_type)
      else get target.selectors key

  abbrev pub all_selected : TargetRef → Fields → Bool
  all_selected target end = true
  all_selected target (field key value rest) =
      found_equal (selected target key) value && all_selected target rest

  -- `_target_satisfies`
  abbrev pub target_satisfies : TargetRef → Fields → Bool
  target_satisfies target end = false
  target_satisfies target (field key value rest) = all_selected target (field key value rest)

  -- E3: no selector is declared, or one is satisfied
  abbrev pub selectors_met : TargetRef → List Fields → Bool
  selectors_met target [] = true
  selectors_met target (s ∷ ss) = any (target_satisfies target) (s ∷ ss)

  -- step 11b
  unfoldable pub check_edge : Pccb → DynamicContextInput → Check
  check_edge p context =
      require (constraints_signed p.scope.parameter_constraints context.parameter_constraints)
        (mismatch "PARAMETER_MISMATCH")
      ⨾ require (selectors_met p.target context.resource_selectors) (mismatch "TARGET_MISMATCH")

  -- `authority_revocable`, or none if the authority extension cannot be read
  abbrev pub authority_revocable : Pccb → Option Bool
  authority_revocable p =
      if is_some (get p.extensions "authority")
      then v.parse_authority_extension p.extensions
      else some false

  abbrev pub says_not_revoked : Option Bool → Bool
  says_not_revoked none = false
  says_not_revoked (some answer) = answer

  -- whether the status is known to be good: from the checker if there is one, and without one only if
  -- the authority is not revocable
  abbrev pub not_revoked :
      Option (Pccb → DynamicContextInput → Option Bool)
      → Option Bool
      → Pccb
      → DynamicContextInput
      → Bool
  not_revoked checker none p context = false
  not_revoked none (some revocable) p context = not revocable
  not_revoked (some checker) (some revocable) p context = says_not_revoked (checker p context)

  -- step 13: each of its failures has the same code
  unfoldable pub check_revocation : Pccb → DynamicContextInput → Check
  check_revocation p context =
      require (not_revoked v.revocation_checker (authority_revocable p) p context)
        (mismatch "AUTHORITY_REVOKED")

  unfoldable pub verify : ActionIntent → Pccb → DynamicContextInput → Check
  verify i p context =
      authenticate p
      ⨾ check_time p context
      ⨾ check_place i p context
      ⨾ check_scope i p context
      ⨾ check_action i p
      ⨾ check_hash i p
      ⨾ check_edge p context
      ⨾ check_revocation p context
