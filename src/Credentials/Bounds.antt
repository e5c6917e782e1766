-- ===== src/Credentials/Bounds.antt =====
-- The lifetime of the credentials of `InMemoryCredentialBroker` (actenon/credentials/broker.py).
use actenon_kernel.Prelude.{
  Bool, String, [], arith, false, if◌then◌else◌, ltb, refl, true, ◌++◌, ◌+◌, ◌∷◌, ◌≡◌, ◌≤◌,
}
use actenon_kernel.Core.Refusal.{Result, ok, raised}
use actenon_kernel.Core.Time.{Time, max_time}
use actenon_kernel.Contracts.{ActionIntent, DynamicContextInput, Pccb}
use actenon_kernel.Credentials.{
  BrokeredCredential, InMemoryBroker, acquire, credential_for, earlier,
}

earlier-leq : (a b : Time) → (earlier a b ≤ a) × (earlier a b ≤ b)
earlier-leq a b = ground arith

acquired :
    (over : Bool) (b : InMemoryBroker) {c d : BrokeredCredential} {b' a : InMemoryBroker}
    → ◌≡◌ {A = Result BrokeredCredential × InMemoryBroker}
        (if over then (raised, b) else (ok d, a))
        (ok c, b')
    → (over ≡ false) × (c ≡ d) × (b' ≡ a)
acquired true b h = absurd (cc h)
acquired false b h = (refl, cc h, cc h)

-- A credential that the in-memory broker returns expires neither after the proof nor after the
-- broker's time to live nor after `datetime.max`, has the capabilities of the proof, and is added
-- to the issued credentials.
pub credential_within_proof :
    (id : String) (intent : ActionIntent) (pccb : Pccb) (context : DynamicContextInput)
    (b b' : InMemoryBroker) (c : BrokeredCredential)
    → acquire id intent pccb context b ≡ (ok c, b')
    → (c.expires_at ≤ pccb.expires_at)
      × (c.expires_at ≤ context.now + b.ttl)
      × (c.expires_at ≤ max_time)
      × (c.scope ≡ pccb.scope.capabilities)
      × (b'.issued_credentials ≡ b.issued_credentials ++ c ∷ [])
unfolding acquire credential_for
credential_within_proof id intent pccb context b b' c h =
    let (in_range, made, after) = acquired (ltb max_time (context.now + b.ttl)) b h in
    let (by_ttl, by_proof) = earlier-leq (context.now + b.ttl) pccb.expires_at in
    rw (made, after) (by_proof, by_ttl, ground arith, refl, refl)
