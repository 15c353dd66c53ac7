-- ===== src/Examples/Services.antt =====
-- Services of internal/core/pipeline that answer everything, and a request to read a calendar.
use open_delo.Prelude.{true, false, some, [], ◌∷◌}
use open_delo.Prelude.Int.{pos}
use open_delo.Risk.Level.{Level, TrustLevel, DeviceTrust}
use open_delo.Matcher.Identity.{workspace_binding}
use open_delo.Decision.Verdicts.{require_approval, standard}
use open_delo.Decision.Engine.{requires_confirmation}
use open_delo.Decision.FailClosed.{balanced}
use open_delo.Approval.Items.{Approval, Status, zero_approval}
use open_delo.Lease.Rows.{Lease, active}
use open_delo.Lease.Manager.{IssueRequest}
use open_delo.Pipeline.Requests.{RequestStatus, CapabilityRequest, Decision}
use open_delo.Pipeline.Calls.{panicked, done}
use open_delo.Pipeline.Services.{Services, Pipeline}
use open_delo.Pipeline.Inputs.{Inputs}
use open_delo.Examples.Samples.{
  ascii, work, home, work_binding, tool_codec, offered_catalog, read_call, no_patterns,
}
use open_delo.Examples.Leases.{sample_codec}

abbrev pub asked : CapabilityRequest
asked = record {
  id = "request-1";
  operation_id = "operation-1";
  agent_id = "agent";
  workspace_id = "ws";
  service = "calendar";
  operation = "events.list";
  resource = "primary";
  desired_change = "";
  reason = "";
  status = RequestStatus.received;
  change_preview = "";
  created_at = 90;
  updated_at = 90;
}

abbrev pub lease_for : IssueRequest → Lease
lease_for q = record {
  id = "lease-1";
  agent_id = q.granted.agent_id;
  identity_id = q.granted.identity_id;
  service = q.granted.service;
  resource_scope = "read";
  capabilities = "names";
  expires_at = q.granted.expires_at;
  request_limit = q.granted.request_limit;
  used_requests = 0;
  status = active;
  approval_id = q.approval_id;
  is_session_bound = q.is_session_bound;
  source_memory_id = q.source_memory_id;
  created_at = 100;
  updated_at = 100;
}

abbrev pub item : Approval
item = record zero_approval {
  id = "approval-1";
  decision_id = "decision-1";
  status = Status.pending;
}

-- The decision of a request that was put before the user.
abbrev pub put : Decision
put = record {
  id = "decision-1";
  capability_request_id = "request-1";
  verdict = require_approval;
  risk_level = Level.medium;
  risk_factors = "[]";
  identity_id = "id-work";
  match_level = workspace_binding;
  resolved_scope = "read";
  approval_requirement = standard;
  reason_code = requires_confirmation;
  trust_memory_id = "";
  created_at = 95;
}

abbrev pub services : Services
services = record {
  now = λ h. 100;
  new_id = λ h. done "decision-1";
  match_memories = λ h agent workspace service. done [];
  active_leases = λ h. done [];
  create_decision = λ h d. done d;
  record_event = λ h e. done tt;
  open_approval = λ h id. done item;
  lease_by_id = λ h id. panicked;
  issue = λ h q. done (lease_for q);
  advance_request = λ h id from to at. done (record asked { status = to; updated_at = at });
  approval_by_id = λ h id. done item;
  decision_by_id = λ h id. done put;
  request_by_id = λ h id. done asked;
  settle_approval = λ h id action status at.
      done (record item { action = action; status = status; decided_at = at });
  approvals_due_before = λ h before limit. done [];
  issued_for = λ h id. panicked;
  generate_memory = λ h q. panicked;
  memory_by_id = λ h id. panicked;
  delete_memory = λ h id. done tt;
  disconnect_agent = λ h id. panicked;
  bound_to_session_of = λ h id limit. panicked;
  issued_to = λ h id limit. panicked;
  revoke_lease = λ h id. panicked;
  identity_by_id = λ h id. panicked;
  invalidate_for_identity = λ h id reason limit. panicked;
  set_identity_status = λ h id status at. panicked;
}

abbrev pub pipeline : Pipeline
pipeline = record {
  mode = balanced;
  patterns = no_patterns;
  services = services;
  letters = ascii;
  codec = sample_codec;
  catalog_codec = tool_codec;
  marshal_factors = λ fs. some "[]";
}

abbrev pub inputs : Inputs
inputs = record {
  request = asked;
  call = read_call;
  catalog = some offered_catalog;
  identities = work ∷ home ∷ [];
  workspace_bindings = work_binding ∷ [];
  resource_bindings = [];
  manual_selection = "";
  agent_trust = TrustLevel.known;
  device_trust = DeviceTrust.trusted;
  facts = record {
    destructive = false;
    permission_change = false;
    secret_access = false;
    billing = false;
    external_communication = false;
    resource_count = pos 1;
  };
  read_only_auto_allow = true;
  new_service = false;
  identity_changed = false;
  new_identity = false;
  new_resource = false;
  blockers = [];
}
