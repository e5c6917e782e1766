-- ===== src/Executor/Evidence.antt =====
-- The evidence of an effect, in what the handler returns and in a receipt
-- (actenon/execution/protected_executor.py).
use actenon_kernel.Prelude.{Bool, List, Option, String, false, if◌then◌else◌, none, some, ◌&&◌, ◌∷◌}
use actenon_kernel.Json.{
  Fields, Json, arr, bool, end, field, get, null, obj, or_empty, put, str, strings,
}
use actenon_kernel.Core.Refusal.{Exec, Refusal, Result, ok, pure, raised, refuse, ◌>>◌}
use actenon_kernel.Contracts.{Receipt}
use actenon_kernel.Effects.{
  EffectReference, get_or_null, reference_dict, reference_keys, same_keys, text_is,
}
use actenon_kernel.Executor.Model.{Locals, ProtectedExecutor, Session, assign, refusal_of}

abbrev pub evidence_keys : List String
evidence_keys = "outcome" ∷ "execution_occurred" ∷ "evidence_hash" ∷ reference_keys

-- `raw_evidence.get(k) == v` for each item of a dict of texts
abbrev pub agrees_with : Fields → EffectReference → Bool
agrees_with raw r =
    text_is raw "profile" r.profile
    && (text_is raw "effect_id" r.effect_id
        && (text_is raw "reservation_id" r.reservation_id
            && text_is raw "owner_attempt_id" r.owner_attempt_id))

module _ {E : Type 0} (x : ProtectedExecutor E) where
  -- the evidence that a payload carries, none if it is not valid evidence of this effect
  unfoldable pub evidence_in : EffectReference → Option Json → Option Fields
  evidence_in reference (some (obj raw)) =
      if same_keys raw evidence_keys
        && (agrees_with raw reference
            && x.valid_outcome (get_or_null raw "outcome") (get_or_null raw "execution_occurred")
                (get_or_null raw "evidence_hash"))
      then some raw
      else none
  evidence_in reference _ = none

  abbrev pub uncommitted : Fields → Refusal
  uncommitted evidence =
      if text_is evidence "outcome" "AMBIGUOUS"
      then refusal_of "execution" "OUTCOME_UNKNOWN"
      else refusal_of "execution" "PROVIDER_REFUSAL"

  abbrev pub committed_evidence : Option Fields → Exec (Session E) (Unit {0})
  committed_evidence none = refuse (refusal_of "execution" "OUTCOME_UNKNOWN")
  committed_evidence (some evidence) =
      assign (λ l. record l { effect_evidence = some evidence })
      >> (if text_is evidence "outcome" "COMMITTED" then pure tt else refuse (uncommitted evidence))

  -- what follows the handler if the request has claimed an effect
  unfoldable pub check_evidence :
      Option EffectReference → Option Fields → Exec (Session E) (Unit {0})
  unfolding evidence_in
  check_evidence none payload = pure tt
  check_evidence (some reference) payload =
      committed_evidence (evidence_in reference (get (or_empty payload) "effect_evidence"))

  -- what `_effect_refusal_receipt` takes for evidence if there is none
  abbrev pub presumed_fields : EffectReference → Bool → String → Fields
  presumed_fields reference handler_started hash =
      put
        (put
          (put (reference_dict reference) "outcome"
            (str (if handler_started then "AMBIGUOUS" else "NOT_EXECUTED")))
          "execution_occurred" (if handler_started then null else bool false))
        "evidence_hash" (str hash)

  abbrev pub hashed_reason : EffectReference → Bool → List String → Json
  hashed_reason reference handler_started reason_codes = obj (
      field "reference" (obj (reference_dict reference)) (
        field "handler_started" (bool handler_started)
          (field "reason" (arr (strings reason_codes)) end)))

  abbrev pub presumed : EffectReference → Bool → Option Fields → List String → Option Fields
  presumed reference handler_started (some evidence) reason_codes = some evidence
  presumed reference handler_started none reason_codes =
      elim (x.sha256_hex (hashed_reason reference handler_started reason_codes)) [
        | none ↦ none
        | some hash ↦ some (presumed_fields reference handler_started hash)
      ]

  abbrev pub with_evidence : Receipt → Option Fields → Result Receipt
  with_evidence receipt none = raised
  with_evidence receipt (some evidence) =
      let ambiguous = text_is evidence "outcome" "AMBIGUOUS" in
      ok (record receipt {
        summary =
            if ambiguous
            then "Execution outcome is unknown; blind retry is refused until reconciliation."
            else receipt.summary;
        side_effects = field "state" (str (if ambiguous then "unknown" else "none")) end;
        extensions = put receipt.extensions "effect" (obj evidence);
      })

  -- `_effect_refusal_receipt`, for a request that has claimed an effect
  unfoldable pub effect_refusal_receipt : Receipt → Locals → Result Receipt
  effect_refusal_receipt receipt l = elim l.effect_reference [
    | none ↦ ok receipt
    | some reference ↦
        with_evidence receipt
          (presumed reference l.handler_started l.effect_evidence receipt.reason_codes)
  ]
