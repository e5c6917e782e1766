-- ===== src/Contracts/Context.antt =====
-- actenon/models/runtime.py: what an endpoint declares, and what a policy decides.
use actenon_kernel.Prelude.{Bool, List, Option, String, nat_eq, string_eq, ◌==◌}
use actenon_kernel.Json.{Fields, ℤ}
use actenon_kernel.Core.Time.{Time}
use actenon_kernel.Contracts.Refs.{AudienceRef}
use actenon_kernel.Contracts.Intent.{ActionIntent}
use actenon_kernel.Contracts.Proof.{Pccb}

pub record DynamicContextInput : Type 0 where
  pub request_id : String
  pub audience : AudienceRef
  pub scope_capabilities : List String
  pub now : Time
  pub facts : Fields
  pub parameter_constraints : Fields
  pub resource_selectors : List Fields
  pub required_evidence_types : List String
  pub approver_types : List String
  pub max_ttl_seconds : Option ℤ

pub record RuleEvaluation : Type 0 where
  pub rule_id : String
  pub outcome : String
  pub reason_code : String
  pub summary : String
  pub details : Fields
  pub required_evidence : List String
  pub approver_types : List String

pub record PolicyDecision : Type 0 where
  pub outcome : String
  pub summary : String
  pub rule_evaluations : List RuleEvaluation
  pub reason_codes : List String
  pub required_evidence : List String
  pub approver_types : List String

-- `PolicyDecision.allowed`
abbrev pub allowed : PolicyDecision → Bool
allowed d = d.outcome == "allow"

pub record ProtectedExecutionRequest : Type 0 where
  pub intent : ActionIntent
  pub pccb : Pccb
  pub context : DynamicContextInput
