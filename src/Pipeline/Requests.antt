-- ===== src/Pipeline/Requests.antt =====
-- internal/core/pipeline/request.go, and the records that the pipeline writes:
-- internal/core/decision/decision.go and internal/platform/audit/event.go. A time is in nanoseconds.
use open_delo.Prelude.{ℕ, String, Option}
use open_delo.Prelude.Int.{ℤ}
use open_delo.Risk.Level.{Level}
use open_delo.Matcher.Identity.{MatchLevel}
use open_delo.Decision.Verdicts.{Verdict, ApprovalRequirement}
use open_delo.Decision.FailClosed.{Blocker}
use open_delo.Decision.Engine.{Reason}
use open_delo.Approval.Items.{Behavior}
use open_delo.Lease.Rows as Lease

pub data RequestStatus : Type 0 where
  received resolving deciding auto_allowed awaiting_approval denied approved : RequestStatus
  rejected expired cancelled executing succeeded failed : RequestStatus
  other : String → RequestStatus

pub record CapabilityRequest : Type 0 where
  pub id : String
  pub operation_id : String
  pub agent_id : String
  pub workspace_id : String
  pub service : String
  pub operation : String
  pub resource : String
  pub desired_change : String
  pub reason : String
  pub status : RequestStatus
  pub change_preview : String
  pub created_at : ℕ
  pub updated_at : ℕ

-- The reason is the code that the text of it stands for.
pub record Decision : Type 0 where
  pub id : String
  pub capability_request_id : String
  pub verdict : Verdict
  pub risk_level : Level
  pub risk_factors : String
  pub identity_id : String
  pub match_level : MatchLevel
  pub resolved_scope : String
  pub approval_requirement : ApprovalRequirement
  pub reason_code : Reason
  pub trust_memory_id : String
  pub created_at : ℕ

-- The types of events that the pipeline records.
pub data EventType : Type 0 where
  auto_allowed user_allowed denied error : EventType
  secret_request_blocked agent_trusted trust_cleared strong_auth_locked : EventType
  approval_expired lease_revoked : EventType

pub data EventOutcome : Type 0 where
  succeeded failed blocked : EventOutcome

-- The one value in the JSON text of an event's metadata.
pub data Metadata : Type 0 where
  reason : Reason → Metadata
  blocker : Blocker → Metadata
  lockout_seconds : ℤ → Metadata
  approval_behavior : Behavior → Metadata
  trust_level_known : Metadata
  agent_session_ended identity_disconnected : Metadata

-- The fields that the pipeline fills in; a verdict or a status that is left empty is `none`.
pub record Event : Type 0 where
  pub operation_id : String
  pub type : EventType
  pub agent_id : String
  pub workspace_id : String
  pub identity_id : String
  pub service : String
  pub operation : String
  pub resource : String
  pub resolved_scope : String
  pub verdict : Option Verdict
  pub risk_level : Level
  pub decision_id : String
  pub approval_id : String
  pub lease_id : String
  pub lease_status : Option Lease.Status
  pub outcome : EventOutcome
  pub metadata : Metadata
