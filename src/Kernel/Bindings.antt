-- ===== src/Kernel/Bindings.antt =====
-- The comparison of a sealed proof with the minted one (actenon/core/kernel.py,
-- `_validated_execution_pccb`): Python's == of the dataclasses, field by field.
use actenon_kernel.Prelude.{
  and-true, Bool, List, Option, String, [], all, false, if◌then◌else◌, nat_eq, none, not, refl,
  some, string_eq, true, ◌&&◌, ◌==◌, ◌∷◌, ◌≡◌,
}
use actenon_kernel.Json.{Fields}
use actenon_kernel.Contracts.{
  ActionHashSpec, ActionSpec, AudienceRef, PartyRef, Pccb, ScopeSpec, TargetRef, TenantRef,
}

abbrev pub option_eq {ℓ} : {A : Type ℓ} → (A → A → Bool) → Option A → Option A → Bool
option_eq eq none none = true
option_eq eq (some a) (some b) = eq a b
option_eq eq _ _ = false

abbrev pub list_eq {ℓ} : {A : Type ℓ} → (A → A → Bool) → List A → List A → Bool
list_eq eq [] [] = true
list_eq eq (x ∷ xs) (y ∷ ys) = let rest = list_eq eq xs ys in eq x y && rest
list_eq eq _ _ = false

abbrev pub text_eq : String → String → Bool
text_eq s t = s == t

-- `value_eq` is Python's == of two dicts.
module _ (value_eq : Fields → Fields → Bool) where
  abbrev pub tenant_eq : TenantRef → TenantRef → Bool
  tenant_eq a b = a.tenant_id == b.tenant_id && value_eq a.attributes b.attributes

  abbrev pub party_eq : PartyRef → PartyRef → Bool
  party_eq a b =
      a.type == b.type
      && (a.id == b.id
          && (option_eq text_eq a.display_name b.display_name
              && value_eq a.attributes b.attributes))

  abbrev pub action_eq : ActionSpec → ActionSpec → Bool
  action_eq a b =
      a.name == b.name
      && (a.capability == b.capability
          && (value_eq a.parameters b.parameters
              && (value_eq a.constraints b.constraints && value_eq a.scope b.scope)))

  abbrev pub target_eq : TargetRef → TargetRef → Bool
  target_eq a b =
      a.resource_type == b.resource_type
      && (a.resource_id == b.resource_id
          && (option_eq text_eq a.uri b.uri && value_eq a.selectors b.selectors))

  abbrev pub scope_eq : ScopeSpec → ScopeSpec → Bool
  scope_eq a b =
      a.mode == b.mode
      && (list_eq text_eq a.capabilities b.capabilities
          && ((if a.single_use then b.single_use else not b.single_use)
              && (list_eq value_eq a.resource_selectors b.resource_selectors
                  && value_eq a.parameter_constraints b.parameter_constraints)))

abbrev pub audience_eq : AudienceRef → AudienceRef → Bool
audience_eq a b = a.type == b.type && (a.id == b.id && option_eq text_eq a.uri b.uri)

abbrev pub hash_eq : ActionHashSpec → ActionHashSpec → Bool
hash_eq a b =
    a.algorithm == b.algorithm && (a.canonicalization == b.canonicalization && a.value == b.value)

-- `required_matches`: the name of each field, and whether the two proofs have it in common
abbrev pub required_matches : (Fields → Fields → Bool) → Pccb → Pccb → List (String × Bool)
required_matches value_eq a b =
    ("intent_id", option_eq text_eq a.intent_id b.intent_id)
    ∷ ("issued_at", a.issued_at == b.issued_at)
    ∷ ("not_before", a.not_before == b.not_before)
    ∷ ("expires_at", a.expires_at == b.expires_at)
    ∷ ("subject", party_eq value_eq a.subject b.subject)
    ∷ ("tenant", tenant_eq value_eq a.tenant b.tenant)
    ∷ ("audience", audience_eq a.audience b.audience)
    ∷ ("action", action_eq value_eq a.action b.action)
    ∷ ("target", target_eq value_eq a.target b.target)
    ∷ ("scope", scope_eq value_eq a.scope b.scope)
    ∷ ("escrow_id", option_eq text_eq a.escrow_id b.escrow_id)
    ∷ ("action_hash", hash_eq a.action_hash b.action_hash)
    ∷ []

-- the first field in which they differ
unfoldable pub first_changed : List (String × Bool) → Option String
first_changed [] = none
first_changed ((field_name, same) ∷ rest) =
    let later = first_changed rest in if same then later else some field_name

-- The sealed proof differs from the minted one in no field but its id, issuer, nonce, signature and
-- extensions.
unfoldable pub bindings_kept : (Fields → Fields → Bool) → Pccb → Pccb → Bool
bindings_kept value_eq a b =
    option_eq text_eq a.intent_id b.intent_id
    && (a.issued_at == b.issued_at
        && (a.not_before == b.not_before
            && (a.expires_at == b.expires_at
                && (party_eq value_eq a.subject b.subject
                    && (tenant_eq value_eq a.tenant b.tenant
                        && (audience_eq a.audience b.audience
                            && (action_eq value_eq a.action b.action
                                && (target_eq value_eq a.target b.target
                                    && (scope_eq value_eq a.scope b.scope
                                        && (option_eq text_eq a.escrow_id b.escrow_id
                                            && hash_eq a.action_hash b.action_hash))))))))))

first_changed-all :
    (matches : List (String × Bool))
    → first_changed matches ≡ none
    → all (λ (m : String × Bool). m.1) matches ≡ true
unfolding first_changed
first_changed-all [] h = refl
first_changed-all ((field_name, true) ∷ rest) h = first_changed-all rest h
first_changed-all ((field_name, false) ∷ rest) h = absurd (cc h)

pub first_changed-kept :
    (value_eq : Fields → Fields → Bool) (a b : Pccb)
    → first_changed (required_matches value_eq a b) ≡ none
    → bindings_kept value_eq a b ≡ true
unfolding bindings_kept
first_changed-kept value_eq a b h =
    let kept = first_changed-all (required_matches value_eq a b) h in
    rw (and-true (hash_eq a.action_hash b.action_hash)) at kept
