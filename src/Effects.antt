-- ===== src/Effects.antt =====
-- actenon/execution/effects.py: ownership of an effect at the protected edge.
pub mod Claims
mod Tests
use actenon_kernel.Prelude.{
  Bool, List, Option, String, [], all, contains, false, if◌then◌else◌, leb, nat_eq, none, not, some,
  string_eq, true, ◌&&◌, ◌*◌, ◌==◌, ◌||◌, ◌∷◌,
}
use actenon_kernel.Json.{Fields, Json, end, field, get, null, obj, str}
use actenon_kernel.Core.Refusal.{Exec, Result, ok, proof_error, raised, refused}
use actenon_kernel.Core.Format.{concat}
use actenon_kernel.Core.Patterns.{prefixed_hex}
use actenon_kernel.Contracts.{ProtectedExecutionRequest}
use actenon_kernel.Verifier.{both_equal}

pub record EffectReference : Type 0 where
  pub profile : String
  pub effect_id : String
  pub reservation_id : String
  pub owner_attempt_id : String

-- `to_dict`
abbrev pub reference_dict : EffectReference → Fields
reference_dict r = field "profile" (str r.profile) (
    field "effect_id" (str r.effect_id) (
      field "reservation_id" (str r.reservation_id)
        (field "owner_attempt_id" (str r.owner_attempt_id) end)))

abbrev pub effect_id_form : String → Bool
effect_id_form = prefixed_hex "effect_" (λ n. n == 64)

abbrev pub reservation_id_form : String → Bool
reservation_id_form = prefixed_hex "reservation_" (λ n. n == 32)

abbrev pub attempt_id_form : String → Bool
attempt_id_form = prefixed_hex "exec_" (λ n. leb 16 n)

-- the keys of a dict
abbrev pub keys : Fields → List String
keys end = []
keys (field k v rest) = k ∷ keys rest

-- `set(raw) == {...}`
abbrev pub same_keys : Fields → List String → Bool
same_keys raw wanted =
    all (λ k. contains wanted k) (keys raw) && all (λ k. contains (keys raw) k) wanted

-- a field that is a text
abbrev pub text_at : Fields → String → Option String
text_at raw key = elim (get raw key) [ none ↦ none | some (str s) ↦ some s | some _ ↦ none ]

-- `raw.get(key) == text`
abbrev pub text_is : Fields → String → String → Bool
text_is raw key text = elim (text_at raw key) [ none ↦ false | some t ↦ t == text ]

abbrev pub reference_keys : List String
reference_keys = "profile" ∷ "effect_id" ∷ "reservation_id" ∷ "owner_attempt_id" ∷ []

-- the texts of the four fields, checked
abbrev pub checked_reference :
    String → Option String → Option String → Option String → Option String → Option EffectReference
checked_reference profile (some p) (some e) (some r) (some o) =
    if p == profile && (effect_id_form e && (reservation_id_form r && attempt_id_form o))
    then some (record { profile = p; effect_id = e; reservation_id = r; owner_attempt_id = o })
    else none
checked_reference profile _ _ _ _ = none

-- `EffectReference.from_dict` of a mapping: none is a ValueError. `profile` is the protocol's
-- EFFECT_PROFILE.
unfoldable pub reference_from_fields : String → Fields → Option EffectReference
reference_from_fields profile raw =
    if same_keys raw reference_keys
    then checked_reference profile (text_at raw "profile") (text_at raw "effect_id")
        (text_at raw "reservation_id") (text_at raw "owner_attempt_id")
    else none

unfoldable pub reference_from_dict : String → Option Json → Option EffectReference
unfolding reference_from_fields
reference_from_dict profile (some (obj raw)) = reference_from_fields profile raw
reference_from_dict profile _ = none

-- What the protocol package decides, and `canonicalize_bytes` (none if it raises). `authority_issuer`
-- is the issuer of the authority extension: none if the extension is malformed, and none inside if
-- there is none. `effect_identity` is none if it raises.
pub record EffectProtocol : Type 0 where
  pub effect_profile : String
  pub canonicalize_bytes : Json → Option String
  pub authority_issuer : Fields → Option (Option String)
  pub effect_identity : Fields → Option String

-- `EffectProtector` over the state that its ledger claim works on. A descriptor builder that raises
-- gives none.
pub record EffectProtector (E : Type 0) : Type 0 where
  pub protocol : EffectProtocol
  pub open protocol use *
  pub namespace : String
  pub claim : EffectReference → ProtectedExecutionRequest → Exec E Bool
  pub descriptor_builder : Option (ProtectedExecutionRequest → Option Fields)

-- the exact descriptor of a request
abbrev pub expected_descriptor : String → String → ProtectedExecutionRequest → Fields
expected_descriptor profile namespace request = field "profile" (str profile) (
    field "namespace" (str namespace) (
      field "kind" (str "exact") (
        field "action_type" (str request.intent.action.capability) (
          field "target"
            (obj (
              field "type" (str request.intent.target.resource_type)
                (field "id" (str request.intent.target.resource_id) end)))
            (field "parameters" (obj request.intent.action.parameters) end)))))

-- `dict.get`, with None for a missing key
abbrev pub get_or_null : Fields → String → Json
get_or_null fs key = elim (get fs key) [ none ↦ null | some v ↦ v ]

module _ {E : Type 0} (protector : EffectProtector E) where
  -- whether `name` is canonical in both and the same
  abbrev pub agrees_on : Fields → Fields → String → Bool
  agrees_on descriptor expected name =
      both_equal (protector.canonicalize_bytes (get_or_null descriptor name))
        (protector.canonicalize_bytes (get_or_null expected name))

  -- `descriptor.get("kind") == "exact"`
  abbrev pub is_exact : Fields → Bool
  is_exact descriptor = text_is descriptor "kind" "exact"

  abbrev pub described :
      Option (ProtectedExecutionRequest → Option Fields)
      → ProtectedExecutionRequest
      → Fields
      → Option Fields
  described none request expected = some expected
  described (some builder) request expected = builder request

  -- whether a descriptor is one of this request at this edge
  unfoldable pub descriptor_fits : Fields → Fields → Bool
  descriptor_fits expected descriptor =
      all (agrees_on descriptor expected) ("profile" ∷ "namespace" ∷ "action_type" ∷ "target" ∷ [])
      && (not (is_exact descriptor) || agrees_on descriptor expected "parameters")

  unfoldable pub identity_of : Fields → Option Fields → Option String
  unfolding descriptor_fits
  identity_of expected none = none
  identity_of expected (some descriptor) =
      if descriptor_fits expected descriptor then protector.effect_identity descriptor else none

  -- the identity that the edge computes for a request: none if anything on the way raises
  unfoldable pub computed_identity : ProtectedExecutionRequest → Option String
  unfolding identity_of
  computed_identity request =
      let expected = expected_descriptor protector.effect_profile protector.namespace request in
      identity_of expected (described protector.descriptor_builder request expected)

  -- the claim of the ledger: an exception and an answer other than True are refusals
  abbrev pub claimed_or_refused : EffectReference → Result Bool → Result EffectReference
  claimed_or_refused reference (ok true) = ok reference
  claimed_or_refused reference (ok false) = refused (proof_error "POLICY_REFUSAL")
  claimed_or_refused reference (refused _) = refused (proof_error "POLICY_REFUSAL")
  claimed_or_refused reference raised = refused (proof_error "POLICY_REFUSAL")

  unfoldable pub claim_identified :
      EffectReference → ProtectedExecutionRequest → Option String → Exec E EffectReference
  claim_identified reference request none s = (refused (proof_error "ACTION_MISMATCH"), s)
  claim_identified reference request (some computed) s =
      if reference.effect_id == computed
      then (let (answer, s') = protector.claim reference request s in
          (claimed_or_refused reference answer, s'))
      else (refused (proof_error "ACTION_MISMATCH"), s)

  -- with the issuer of the authority; `authority["issuer"]` of None is a TypeError
  unfoldable pub claim_issued :
      ProtectedExecutionRequest → EffectReference → Option String → Exec E EffectReference
  unfolding claim_identified
  claim_issued request reference none s = (raised, s)
  claim_issued request reference (some issuer) s =
      if not (issuer == concat (request.pccb.issuer.type ∷ ":" ∷ request.pccb.issuer.id ∷ []))
      then (refused (proof_error "ISSUER_UNTRUSTED"), s)
      else claim_identified reference request (computed_identity request) s

  unfoldable pub claim_referenced :
      ProtectedExecutionRequest
      → Option EffectReference
      → Option (Option String)
      → Exec E EffectReference
  unfolding claim_issued
  claim_referenced request (some reference) (some issuer) s =
      if not (reference.owner_attempt_id == request.intent.intent_id)
      then (refused (proof_error "ACTION_MISMATCH"), s)
      else claim_issued request reference issuer s
  claim_referenced request (some reference) none s = (refused (proof_error "MALFORMED_REQUEST"), s)
  claim_referenced request none issuer s = (refused (proof_error "MALFORMED_REQUEST"), s)

  -- `EffectProtector.claim_request`
  unfoldable pub claim_effect : ProtectedExecutionRequest → Exec E EffectReference
  unfolding claim_referenced
  claim_effect request =
      claim_referenced request
        (reference_from_dict protector.effect_profile (get request.pccb.extensions "effect"))
        (protector.authority_issuer request.pccb.extensions)
