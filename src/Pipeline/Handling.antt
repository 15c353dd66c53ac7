-- ===== src/Pipeline/Handling.antt =====
-- internal/core/pipeline/pipeline.go: the decision and what follows from it.
use open_delo.Prelude.{ℕ, String, false, ◌||◌, Option, none, some, ◌==◌, if◌then◌else◌}
use open_delo.Platform.AppError.{invalid_request}
use open_delo.Risk.Level.{Level}
use open_delo.Decision.Verdicts.{Verdict, auto_allow, require_approval, deny}
use open_delo.Decision.FailClosed.{Blocker, policy_engine_failure}
use open_delo.Decision.Engine.{Outcome, decide, fail_closed_outcome}
use open_delo.Approval.Items.{Approval}
use open_delo.Lease.Rows.{Lease, text_of}
use open_delo.Lease.Manager.{IssueRequest, wrapped}
use open_delo.Pipeline.Requests.{
  RequestStatus, CapabilityRequest, Decision, Event, EventType, EventOutcome, Metadata, error,
  succeeded,
}
use open_delo.Pipeline.Calls.{
  id_made, decision_written, audited, approval_opened, lease_read, lease_issued, request_advanced,
  Run, return, fail, lift, call, recover, ◌>>=◌, ◌>>◌,
}
use open_delo.Pipeline.Services.{Pipeline}
use open_delo.Pipeline.Inputs.{Inputs, Resolved, Step, blocked, passed}
use open_delo.Pipeline.Resolving.{read_clock, resolve_request}

-- `Result`; what is nil or empty is `none`.
pub record Handled : Type 0 where
  pub request : CapabilityRequest
  pub decision : Option Decision
  pub outcome : Outcome
  pub approval : Option Approval
  pub lease : Option Lease

unfoldable pub resource_of : CapabilityRequest → String
resource_of request = if request.resource == "" then "{}" else request.resource

-- The event that `write` records.
unfoldable pub event_of : Inputs → Resolved → Decision → EventType → EventOutcome → Event
unfolding resource_of
event_of inputs out written type outcome = record {
  operation_id = inputs.request.operation_id;
  type = type;
  agent_id = inputs.request.agent_id;
  workspace_id = inputs.request.workspace_id;
  identity_id = out.matched.identity.id;
  service = out.scope.scope.service;
  operation = out.scope.scope.operation;
  resource = resource_of inputs.request;
  resolved_scope = written.resolved_scope;
  verdict = some written.verdict;
  risk_level = written.risk_level;
  decision_id = written.id;
  approval_id = "";
  lease_id = "";
  lease_status = none;
  outcome = outcome;
  metadata = Metadata.reason written.reason_code;
}

-- The event that `failClosed` records.
unfoldable pub error_event : Inputs → Blocker → Event
unfolding resource_of
error_event inputs blocker = record {
  operation_id = inputs.request.operation_id;
  type = error;
  agent_id = inputs.request.agent_id;
  workspace_id = inputs.request.workspace_id;
  identity_id = "";
  service = inputs.request.service;
  operation = inputs.request.operation;
  resource = resource_of inputs.request;
  resolved_scope = "{}";
  verdict = some deny;
  risk_level = Level.other "";
  decision_id = "";
  approval_id = "";
  lease_id = "";
  lease_status = none;
  outcome = EventOutcome.blocked;
  metadata = Metadata.blocker blocker;
}

-- The record that `recordDecision` hands to the repository.
unfoldable pub decision_of : Inputs → Resolved → Outcome → String → String → String → ℕ → Decision
decision_of inputs out outcome id factors scope now = record {
  id = id;
  capability_request_id = inputs.request.id;
  verdict = outcome.verdict;
  risk_level = out.risk.level;
  risk_factors = factors;
  identity_id = out.matched.identity.id;
  match_level = out.matched.level;
  resolved_scope = scope;
  approval_requirement = outcome.approval_requirement;
  reason_code = outcome.reason;
  trust_memory_id = text_of outcome.matched_memory_id;
  created_at = now;
}

-- What `issue` asks the lease manager for.
unfoldable pub request_for : Resolved → Decision → IssueRequest
request_for out written = record {
  granted = out.scope.scope;
  approval_id = "";
  source_memory_id = written.trust_memory_id;
  is_session_bound = false;
}

module _ (p : Pipeline) where
  abbrev pub record_event : Event → Run (Unit {0})
  record_event event = call (λ h. p.services.record_event h event) (audited event)

  abbrev pub create_decision : Decision → Run Decision
  create_decision d = call (λ h. p.services.create_decision h d) (decision_written d)

  unfoldable pub advance : CapabilityRequest → RequestStatus → Run CapabilityRequest
  advance request to = do
    now ← read_clock p
    call (λ h. p.services.advance_request h request.id request.status to now)
        (request_advanced request.id request.status to)

  unfoldable pub record_decision : Inputs → Resolved → Outcome → Run Decision
  unfolding decision_of
  record_decision inputs out outcome = do
    id ← call p.services.new_id id_made
    factors ← lift (wrapped (p.marshal_factors out.risk.factors))
    scope ← lift (wrapped (p.codec.marshal_scope out.scope.scope))
    now ← read_clock p
    create_decision (decision_of inputs out outcome id factors scope now)

  unfoldable pub write : Inputs → Resolved → Decision → EventType → EventOutcome → Run (Unit {0})
  write inputs out written type outcome = record_event (event_of inputs out written type outcome)

  -- `issueLease`
  unfoldable pub issue_one : IssueRequest → Run Lease
  issue_one request = call (λ h. p.services.issue h request) (lease_issued request)

  -- The end of `issue`: the lease that matched is used again, and no second one is issued.
  unfoldable pub release : Resolved → Decision → String → Run Lease
  unfolding issue_one request_for
  release out written reused =
      if reused == ""
      then issue_one (request_for out written)
      else call (λ h. p.services.lease_by_id h reused) (lease_read reused)

  -- `issue`
  unfoldable pub issue_allowed : Inputs → Resolved → Decision → Outcome → Run Lease
  issue_allowed inputs out written outcome = do
    write inputs out written EventType.auto_allowed succeeded
    release out written (text_of outcome.matched_lease_id)

  -- The end of `conclude`.
  unfoldable pub finish :
      Inputs → Outcome → Decision → Option Approval → Option Lease → RequestStatus → Run Handled
  finish inputs outcome written approval lease next = do
    advanced ← advance inputs.request next
    return (record {
      request = advanced;
      decision = some written;
      outcome = outcome;
      approval = approval;
      lease = lease;
    })

  -- The switch of `conclude`, each case with what comes after the switch.
  unfoldable pub carry_out : Inputs → Resolved → Outcome → Decision → Verdict → Run Handled
  unfolding finish
  carry_out inputs out outcome written deny = do
    write inputs out written EventType.denied EventOutcome.blocked
    finish inputs outcome written none none RequestStatus.denied
  carry_out inputs out outcome written require_approval = do
    write inputs out written EventType.denied EventOutcome.blocked
    item ← call (λ h. p.services.open_approval h written.id) (approval_opened written.id)
    finish inputs outcome written (some item) none RequestStatus.awaiting_approval
  carry_out inputs out outcome written auto_allow = do
    issued ← issue_allowed inputs out written outcome
    finish inputs outcome written none (some issued) RequestStatus.auto_allowed

  -- `conclude`
  unfoldable pub conclude_request : Inputs → Resolved → Outcome → Run Handled
  unfolding carry_out
  conclude_request inputs out outcome = do
    written ← record_decision inputs out outcome
    carry_out inputs out outcome written outcome.verdict

  unfoldable pub fail_closed : Inputs → Blocker → Run Handled
  unfolding fail_closed_outcome
  fail_closed inputs blocker = do
    record_event (error_event inputs blocker)
    advanced ← advance inputs.request RequestStatus.denied
    return (record {
      request = advanced;
      decision = none;
      outcome = fail_closed_outcome blocker;
      approval = none;
      lease = none;
    })

  -- What follows the first half.
  unfoldable pub decide_on : Inputs → Step Resolved → Run Handled
  decide_on inputs (blocked blocker) = fail_closed inputs blocker
  decide_on inputs (passed out) = conclude_request inputs out (decide p.letters out.input)

  -- `Handle` without its deferred function.
  unfoldable pub handle_body : Inputs → Run Handled
  unfolding decide_on
  handle_body inputs =
      if inputs.request.id == "" || inputs.request.operation_id == ""
      then fail invalid_request
      else resolve_request p inputs >>= decide_on inputs

  -- `Handle`
  unfoldable pub handle : Inputs → Run Handled
  unfolding handle_body
  handle inputs = recover (handle_body inputs) (fail_closed inputs policy_engine_failure)
