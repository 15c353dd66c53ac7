-- ===== src/Pipeline/Services.antt =====
-- internal/core/pipeline/pipeline.go, `Options`: what the pipeline is made of. The repositories, the
-- managers over them and the audit recorder answer as they like, by the calls made so far.
use open_delo.Prelude.{ℕ, String, Option, List}
use open_delo.Prelude.Int.{ℤ}
use open_delo.Prelude.Text.{Letters}
use open_delo.Risk.Engine.{Factor}
use open_delo.Decision.FailClosed.{Mode}
use open_delo.Approval.Items.{Action, Status, Approval}
use open_delo.Lease.Rows.{Lease}
use open_delo.Lease.Manager.{Codec, IssueRequest}
use open_delo.Matcher.Identity.{Identity, IdentityStatus}
use open_delo.Agent.Identity.{Agent}
use open_delo.Trust.Memories.{Memory, InvalidationReason}
use open_delo.Trust.Manager.{GenerateRequest}
use open_delo.Intent.Resolver.{Patterns}
use open_delo.Intent.Catalog as Catalog
use open_delo.Pipeline.Requests.{RequestStatus, CapabilityRequest, Decision, Event}
use open_delo.Pipeline.Calls.{Answer, History}

pub record Services : Type 0 where
  pub now : History → ℕ
  pub new_id : History → Answer String
  pub match_memories : History → String → String → String → Answer (List Memory)
  pub active_leases : History → Answer (List Lease)
  pub create_decision : History → Decision → Answer Decision
  pub record_event : History → Event → Answer (Unit {0})
  pub open_approval : History → String → Answer Approval
  pub lease_by_id : History → String → Answer Lease
  pub issue : History → IssueRequest → Answer Lease
  pub advance_request :
      History → String → RequestStatus → RequestStatus → ℕ → Answer CapabilityRequest
  pub approval_by_id : History → String → Answer Approval
  pub decision_by_id : History → String → Answer Decision
  pub request_by_id : History → String → Answer CapabilityRequest
  pub settle_approval : History → String → Action → Status → ℕ → Answer Approval
  pub approvals_due_before : History → ℕ → ℤ → Answer (List Approval)
  pub issued_for : History → String → Answer Lease
  pub generate_memory : History → GenerateRequest → Answer Memory
  pub memory_by_id : History → String → Answer Memory
  pub delete_memory : History → String → Answer (Unit {0})
  pub disconnect_agent : History → String → Answer Agent
  pub bound_to_session_of : History → String → ℕ → Answer (List Lease)
  pub issued_to : History → String → ℕ → Answer (List Lease)
  pub revoke_lease : History → String → Answer Lease
  pub identity_by_id : History → String → Answer Identity
  pub invalidate_for_identity : History → String → InvalidationReason → ℕ → Answer (List Memory)
  pub set_identity_status : History → String → IdentityStatus → ℕ → Answer Identity

-- The pipeline, with what it uses of the standard library.
pub record Pipeline : Type 0 where
  pub mode : Mode
  pub patterns : Patterns
  pub services : Services
  pub letters : Letters
  pub codec : Codec
  pub catalog_codec : Catalog.Codec
  pub marshal_factors : List Factor → Option String
