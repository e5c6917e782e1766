-- ===== src/Core/Refusal.antt =====
-- actenon/core/errors.py: what a call may raise. Messages and violations, which no code reads, are
-- left out. The monad keeps the state that a raise leaves behind.
use actenon_kernel.Prelude.{Bool, List, String, [], ap, false, refl, true, ◌≡◌}
use actenon_kernel.Json.{Fields, end}

-- `RefusalException`
pub record Refusal : Type 0 where
  pub category : String
  pub refusal_code : String
  pub retryable : Bool
  pub rule_refs : List String
  pub details : Fields

-- A returned value, a `RefusalException`, or any other exception.
pub data Result {ℓ} (A : Type ℓ) : Type ℓ where
  ok : A → Result A
  refused : Refusal → Result A
  raised : Result A

-- `ReplayValidationError`
abbrev pub replay_error : String → Fields → Refusal
replay_error code details = record {
  category = "replay";
  refusal_code = code;
  retryable = false;
  rule_refs = [];
  details = details;
}

-- `EscrowValidationError` as every store raises it: `_escrow_error`
abbrev pub escrow_error : String → Refusal
escrow_error code = record {
  category = "escrow";
  refusal_code = code;
  retryable = false;
  rule_refs = [];
  details = end;
}

-- `ProofVerificationError`
abbrev pub proof_error : String → Refusal
proof_error code = record {
  category = "proof";
  refusal_code = code;
  retryable = false;
  rule_refs = [];
  details = end;
}

abbrev pub Exec {ℓ} : Type ℓ → Type ℓ → Type ℓ
Exec S A = S → Result A × S

module _ {ℓ} {S A : Type ℓ} where
  unfoldable pub pure : A → Exec S A
  pure a s = (ok a, s)

  unfoldable pub refuse : Refusal → Exec S A
  refuse r s = (refused r, s)

  -- a result that needs no state
  unfoldable pub answer : Result A → Exec S A
  answer r s = (r, s)

  abbrev pub gets : (S → A) → Exec S A
  gets f s = (ok (f s), s)

module _ {ℓ} {S A B : Type ℓ} where
  abbrev pub continue : Result A → (A → Exec S B) → Exec S B
  continue (ok a) f s = f a s
  continue (refused r) f s = (refused r, s)
  continue raised f s = (raised, s)

  infixl 5 ◌>>=◌ ◌>>◌
  unfoldable pub ◌>>=◌ : Exec S A → (A → Exec S B) → Exec S B
  ◌>>=◌ m f s = let (r, s') = m s in continue r f s'

  abbrev pub ◌>>◌ : Exec S A → Exec S B → Exec S B
  m >> n = m >>= λ _. n

abbrev pub is_ok {ℓ} : {A : Type ℓ} → Result A → Bool
is_ok (ok _) = true
is_ok (refused _) = false
is_ok raised = false

pub returned_ok {ℓ} : {A : Type ℓ} (r : Result A) (a : A) → r ≡ ok a → is_ok r ≡ true
returned_ok r a h = rw h refl

-- Inversions of a chain of calls.
module _ {ℓ} {S A B : Type ℓ} (m : Exec S A) (f : A → Exec S B) (s : S) where
  pub ok_of_bind :
      is_ok ((m >>= f) s).0 ≡ true
      → (a : A) × ((m s).0 ≡ ok a) × (is_ok (f a (m s).1).0 ≡ true) × ((m >>= f) s ≡ f a (m s).1)
  unfolding ◌>>=◌
  ok_of_bind h = go (m s).0 (m s).1 h
    where
      go :
          (r : Result A) (t : S)
          → is_ok (continue r f t).0 ≡ true
          → (a : A) × (r ≡ ok a) × (is_ok (f a t).0 ≡ true) × (continue r f t ≡ f a t)
      go (ok a) t h = (a, refl, h, refl)
      go (refused e) t h = cc
      go raised t h = cc

  pub bind_fails :
      ((a : A) → (m s).0 ≡ ok a → is_ok (f a (m s).1).0 ≡ false) → is_ok ((m >>= f) s).0 ≡ false
  unfolding ◌>>=◌
  bind_fails h = go (m s).0 (m s).1 h
    where
      go :
          (r : Result A) (t : S)
          → ((a : A) → r ≡ ok a → is_ok (f a t).0 ≡ false)
          → is_ok (continue r f t).0 ≡ false
      go (ok a) t h = h a refl
      go (refused e) t h = refl
      go raised t h = refl

  pub bind-ok : (a : A) (t : S) → m s ≡ (ok a, t) → (m >>= f) s ≡ f a t
  unfolding ◌>>=◌
  bind-ok a t e = ap (λ (p : Result A × S). continue p.0 f p.1) e
