-- ===== src/Credentials/Tests.antt =====
-- A credential of two minutes for a proof that ends earlier.
use actenon_kernel.Prelude.{[], refl, some, ◌∷◌, ◌≡◌, ◌≤◌}
use actenon_kernel.Json.{end, field, obj, str}
use actenon_kernel.Core.Refusal.{ok}
use actenon_kernel.Core.Time.{max_time}
use actenon_kernel.Contracts.{Pccb}
use actenon_kernel.Credentials.{BrokeredCredential, InMemoryBroker, acquire, credential_for}
use actenon_kernel.Credentials.Bounds.{credential_within_proof}
use actenon_kernel.Verifier.Tests.{here, refund_of, signed_by}

abbrev broker : InMemoryBroker
broker = record {
  ttl = 120000000;
  secret_reference_prefix = "memory://brokered-credential";
  issued_credentials = [];
  released_credentials = [];
}

abbrev proof : Pccb
proof = signed_by "key-1"

abbrev credential : BrokeredCredential
credential = record {
  credential_id = "c-1";
  issued_at = 10000000;
  expires_at = 62000000;
  scope = "payment.refund" ∷ [];
  metadata = field "broker" (str "in_memory") (
      field "intent_id" (str "i-1") (
        field "pccb_id" (str "p-1") (
          field "audience" (obj (field "type" (str "service") (field "id" (str "edge") end)))
            (field "capability" (str "payment.refund") end))));
  secret_reference = some "memory://brokered-credential/c-1";
}

acquired :
    acquire "c-1" (refund_of "5") proof here broker
    ≡ (ok credential, record broker { issued_credentials = credential ∷ [] })
unfolding acquire credential_for
acquired = refl

credential_within_proof_example :
    (62000000 ≤ 62000000)
    × (62000000 ≤ 130000000)
    × (62000000 ≤ max_time)
    × (credential.scope ≡ proof.scope.capabilities)
    × ((credential ∷ []) ≡ (credential ∷ []))
credential_within_proof_example =
    credential_within_proof "c-1" (refund_of "5") proof here broker
      (record broker { issued_credentials = credential ∷ [] }) credential acquired
