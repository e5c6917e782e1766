-- ===== src/Replay/Service.antt =====
-- `ReplayProtector` and the claim it builds (actenon/replay/service.py).
use Prim.Native.String.{◌++◌ as str_append}
use actenon_kernel.Prelude.{Option, String, [], none, some, ◌∷◌}
use actenon_kernel.Json.{Fields, Json, arr, end, field, obj, str, strings}
use actenon_kernel.Core.Refusal.{Exec, raised}
use actenon_kernel.Core.Format.{concat}
use actenon_kernel.Contracts.{
  ActionIntent, Pccb, ProtectedExecutionRequest, action_hash_dict, audience_dict, target_dict,
}
use actenon_kernel.Replay.Model.{ActionConsumptionClaim, ActionConsumptionState, StoreState}
use actenon_kernel.Replay.Store.{claim_once}

-- what the key hashes
abbrev pub key_input : ActionIntent → Pccb → Fields
key_input i p = field "pccb_id" (str p.pccb_id) (
    field "intent_id" (str i.intent_id) (
      field "nonce" (str p.nonce) (
        field "action_hash" (obj (action_hash_dict p.action_hash)) (
          field "audience" (obj (audience_dict p.audience)) (
            field "capability" (str i.action.capability)
              (field "target" (obj (target_dict i.target)) end))))))

-- `sha256_hex` is that of actenon/proof/canonical.py: none if it raises.
module _ (sha256_hex : Json → Option String) where
  unfoldable pub build_replay_key : ActionIntent → Pccb → Option String
  build_replay_key i p = elim (sha256_hex (obj (key_input i p))) [
    | none ↦ none
    | some digest ↦ some (str_append "rpk_" digest)
  ]

-- `build_action_consumption_claim`, with the key that it has built
abbrev pub claim_of : ProtectedExecutionRequest → String → ActionConsumptionClaim
claim_of request key = record {
  replay_key = key;
  intent_id = some request.intent.intent_id;
  pccb_id = request.pccb.pccb_id;
  nonce = request.pccb.nonce;
  action_hash = request.pccb.action_hash.value;
  audience = concat (request.pccb.audience.type ∷ ":" ∷ request.pccb.audience.id ∷ []);
  capability = request.intent.action.capability;
  tenant_id = some request.intent.tenant.tenant_id;
  subject_id = some request.intent.requester.id;
  expires_at = request.pccb.expires_at;
  metadata = field "request_id" (str request.context.request_id) (
      field "audience_id" (str request.pccb.audience.id)
        (field "scope_capabilities" (arr (strings request.pccb.scope.capabilities)) end));
}

abbrev pub claim_keyed :
    ProtectedExecutionRequest → Option String → Exec StoreState (Option ActionConsumptionState)
claim_keyed request none s = (raised, s)
claim_keyed request (some key) s = claim_once (claim_of request key) request.context.now s

-- `ReplayProtector.claim_request`
unfoldable pub claim_request :
    (Json → Option String)
    → ProtectedExecutionRequest
    → Exec StoreState (Option ActionConsumptionState)
unfolding build_replay_key
claim_request sha256_hex request =
    claim_keyed request (build_replay_key sha256_hex request.intent request.pccb)
