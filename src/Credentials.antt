-- ===== src/Credentials.antt =====
-- actenon/credentials/broker.py: short-lived credentials for one execution.
pub mod Bounds
mod Tests
use actenon_kernel.Prelude.{List, Option, String, [], if◌then◌else◌, ltb, some, ◌++◌, ◌+◌, ◌∷◌}
use actenon_kernel.Json.{Fields, arr, end, field, obj, put_some, str, strings}
use actenon_kernel.Core.Refusal.{Exec, ok, raised}
use actenon_kernel.Core.Time.{Time, max_time}
use actenon_kernel.Core.Format.{concat, format_timestamp}
use actenon_kernel.Contracts.{ActionIntent, DynamicContextInput, Pccb, audience_dict}

pub record BrokeredCredential : Type 0 where
  pub credential_id : String
  pub issued_at : Time
  pub expires_at : Time
  pub scope : List String
  pub metadata : Fields
  pub secret_reference : Option String

-- `to_public_dict`
unfoldable pub to_public_dict : BrokeredCredential → Fields
unfolding format_timestamp
to_public_dict c =
    put_some
      (field "credential_id" (str c.credential_id) (
        field "issued_at" (str (format_timestamp c.issued_at)) (
          field "expires_at" (str (format_timestamp c.expires_at))
            (field "scope" (arr (strings c.scope)) (field "metadata" (obj c.metadata) end)))))
      "secret_reference" c.secret_reference

-- `InMemoryCredentialBroker`: the lists are in the order of the calls. A released credential comes
-- with the result that the executor reported. The prefix has no slash at its end.
pub record InMemoryBroker : Type 0 where
  pub ttl : Time
  pub secret_reference_prefix : String
  pub issued_credentials : List BrokeredCredential
  pub released_credentials : List (BrokeredCredential × Fields)

abbrev pub earlier : Time → Time → Time
earlier a b = if ltb b a then b else a

-- the credential that `acquire` makes, with the id of its factory
unfoldable pub credential_for :
    InMemoryBroker → String → ActionIntent → Pccb → DynamicContextInput → BrokeredCredential
credential_for b id intent pccb context = record {
  credential_id = id;
  issued_at = context.now;
  expires_at = earlier (context.now + b.ttl) pccb.expires_at;
  scope = pccb.scope.capabilities;
  metadata = field "broker" (str "in_memory") (
      field "intent_id" (str intent.intent_id) (
        field "pccb_id" (str pccb.pccb_id) (
          field "audience" (obj (audience_dict pccb.audience))
            (field "capability" (str intent.action.capability) end))));
  secret_reference = some (concat (b.secret_reference_prefix ∷ "/" ∷ id ∷ []));
}

-- `acquire`. A sum beyond `datetime.max` is an OverflowError.
unfoldable pub acquire :
    String → ActionIntent → Pccb → DynamicContextInput → Exec InMemoryBroker BrokeredCredential
unfolding credential_for
acquire id intent pccb context b = if ltb max_time (context.now + b.ttl) then (raised, b) else (
  ok (credential_for b id intent pccb context),
  record b {
    issued_credentials = b.issued_credentials ++ credential_for b id intent pccb context ∷ [];
  },
)

-- `release`
unfoldable pub release : BrokeredCredential → Fields → Exec InMemoryBroker (Unit {0})
release c result b =
    (ok tt, record b { released_credentials = b.released_credentials ++ (c, result) ∷ [] })
