-- ===== src/Verifier/Checks.antt =====
-- What `PCCBVerifier` is built from, its two ways to fail, and a sequence of checks.
use actenon_kernel.Prelude.{Bool, List, Option, String, false, not, refl, true, ◌&&◌, ◌≡◌}
use actenon_kernel.Json.{Fields, Json}
use actenon_kernel.Core.Refusal.{Refusal, Result, is_ok, ok, proof_error, raised, refused}
use actenon_kernel.Core.Time.{Time}
use actenon_kernel.Contracts.{DynamicContextInput, Pccb}

pub data VerifierDisclosureMode : Type 0 where
  public_generic trusted_detailed local_debug : VerifierDisclosureMode

-- What the verifier calls: `canonicalize_bytes` of actenon/proof/canonical.py (none if it raises),
-- SHA-256 in hex, and `capability_in_scope`, the accepted profiles and the reading of the `revocable`
-- flag of the authority extension (none if it raises) from the protocol package.
pub record Libraries : Type 0 where
  pub canonicalize_bytes : Json → Option String
  pub sha256 : String → String
  pub capability_in_scope : String → List String → Bool
  pub accepted_profiles : List String
  pub parse_authority_extension : Fields → Option Bool

-- `PCCBVerifier`. `signature_valid` is the signer's `verify_with_metadata`, or its `verify`; a
-- revocation checker that raises gives none.
pub record Verifier : Type 0 where
  pub libraries : Libraries
  pub open libraries use *
  pub signature_valid : String → Pccb → Bool
  pub clock_skew_tolerance : Time
  pub disclosure_mode : VerifierDisclosureMode
  pub revocation_checker : Option (Pccb → DynamicContextInput → Option Bool)
  pub boundary_id : Option String

-- `__post_init__`: whether the constructor accepts the mode in this environment. A tolerance is not
-- negative by its type.
abbrev pub constructs : Bool → VerifierDisclosureMode → Bool
constructs production_like local_debug = not production_like
constructs production_like public_generic = true
constructs production_like trusted_detailed = true

-- `default_disclosure_mode`
abbrev pub default_disclosure_mode : Bool → VerifierDisclosureMode
default_disclosure_mode true = trusted_detailed
default_disclosure_mode false = local_debug

-- `_raise_pre_auth_failure`
abbrev pub pre_auth_failure : VerifierDisclosureMode → String → Refusal
pre_auth_failure local_debug code = proof_error code
pre_auth_failure public_generic code = proof_error "PROOF_INVALID"
pre_auth_failure trusted_detailed code = proof_error "PROOF_INVALID"

-- `_raise_post_auth_failure`
abbrev pub post_auth_failure : VerifierDisclosureMode → String → Refusal
post_auth_failure public_generic code = proof_error "PROOF_INVALID"
post_auth_failure trusted_detailed code = proof_error code
post_auth_failure local_debug code = proof_error code

abbrev pub Check : Type 0
Check = Result (Unit {0})

-- one check: nothing is returned if the test holds, and the failure is raised otherwise
unfoldable pub require : Bool → Refusal → Check
require true r = ok tt
require false r = refused r

-- one check after another
infixr 4 ◌⨾◌
unfoldable pub ◌⨾◌ : Check → Check → Check
ok _ ⨾ c = c
refused r ⨾ c = refused r
raised ⨾ c = raised

pub ok-then : (a b : Check) → is_ok (a ⨾ b) ≡ (is_ok a && is_ok b)
unfolding ◌⨾◌
ok-then (ok _) b = refl
ok-then (refused r) b = refl
ok-then raised b = refl
