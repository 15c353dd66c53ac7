-- ===== src/Pipeline/Records.antt =====
-- internal/core/pipeline/{agent,identity}.go and settle.go: what a cascade returns, and the events that are
-- recorded apart from a request.
use open_delo.Prelude.{ℕ, String, none, some, List}
use open_delo.Risk.Level.{Level}
use open_delo.Matcher.Identity.{Identity}
use open_delo.Decision.Verdicts.{deny}
use open_delo.Lease.Rows as Lease
use open_delo.Lease.Rows.{Lease}
use open_delo.Agent.Identity.{Agent}
use open_delo.Trust.Memories.{Memory}
use open_delo.Pipeline.Requests.{Event, EventType, EventOutcome, Metadata, succeeded}

-- `SessionRevocation` and `IdentityRevocation`
pub record SessionRevocation : Type 0 where
  pub agent : Agent
  pub revoked_leases : List Lease

pub record IdentityRevocation : Type 0 where
  pub identity : Identity
  pub revoked_leases : List Lease
  pub invalidated_memories : List Memory

-- What the caller knows of an agent that asked for a secret.
pub record BlockedRequest : Type 0 where
  pub operation_id : String
  pub agent_id : String
  pub workspace_id : String
  pub service : String
  pub operation : String

-- The most that one cascade closes.
abbrev pub cascade_limit : ℕ
cascade_limit = 1000

-- The event that the two cascades record of a lease; only the reason and the identity differ.
unfoldable pub revocation_event : String → Metadata → String → Lease → Event
revocation_event identity cause operation granted = record {
  operation_id = operation;
  type = EventType.lease_revoked;
  agent_id = granted.agent_id;
  workspace_id = "";
  identity_id = identity;
  service = granted.service;
  operation = "";
  resource = "{}";
  resolved_scope = granted.resource_scope;
  verdict = some deny;
  risk_level = Level.other "";
  decision_id = "";
  approval_id = "";
  lease_id = granted.id;
  lease_status = some Lease.revoked;
  outcome = EventOutcome.blocked;
  metadata = cause;
}

-- An event outside every request: service, operation, resource, outcome and metadata.
unfoldable pub plain_event : String → EventType → String → String → EventOutcome → Metadata → Event
plain_event operation_id type service operation outcome metadata = record {
  operation_id = operation_id;
  type = type;
  agent_id = "";
  workspace_id = "";
  identity_id = "";
  service = service;
  operation = operation;
  resource = "{}";
  resolved_scope = "{}";
  verdict = none;
  risk_level = Level.other "";
  decision_id = "";
  approval_id = "";
  lease_id = "";
  lease_status = none;
  outcome = outcome;
  metadata = metadata;
}

-- The event that `ClearTrustMemory` records.
unfoldable pub clearing_event : String → Memory → Event
unfolding plain_event
clearing_event operation cleared =
    record (plain_event operation EventType.trust_cleared cleared.service "trust.clear" succeeded
      (Metadata.approval_behavior cleared.behavior)) {
        agent_id = cleared.agent_id;
        workspace_id = cleared.workspace_id;
        identity_id = cleared.identity_id;
        resource = cleared.resource_scope;
        risk_level = cleared.risk_ceiling;
      }
