-- ===== src/Pipeline/Settling.antt =====
-- internal/core/pipeline/settle.go: what follows from the user's answer, and what is recorded apart
-- from a request; `Settle` of internal/core/approval/manager.go with its calls.
use open_delo.Prelude.{String, Bool, Option, none, some, ltb, if◌then◌else◌}
use open_delo.Prelude.Int.{ℤ, pos, leb_ℤ}
use open_delo.Platform.AppError.{Code, Result, err, ok, conflict, approval_timeout, is_not_found}
use open_delo.Scope.Dimensions.{Scope}
use open_delo.Decision.Engine.{required_confirmations}
use open_delo.Approval.Items.{Action, Behavior, Approval}
use open_delo.Approval.Manager.{
  Settlement, SettleRequest, allows, check_settle, settled_status, replay, is_conflict,
}
use open_delo.Lease.Rows.{Lease}
use open_delo.Lease.Manager.{IssueRequest, decode_grant}
use open_delo.Trust.Memories.{Memory}
use open_delo.Trust.Manager.{GenerateRequest}
use open_delo.Pipeline.Requests.{
  RequestStatus, CapabilityRequest, Decision, Event, EventType, EventOutcome, Metadata, succeeded,
  user_allowed,
}
use open_delo.Pipeline.Calls.{
  approval_read, decision_read, request_read, approval_settled, issued_lease_read, memory_generated,
  Run, return, fail, lift, attempt, call, ◌>>=◌, ◌>>◌,
}
use open_delo.Pipeline.Services.{Pipeline}
use open_delo.Pipeline.Resolving.{read_clock}
use open_delo.Pipeline.Handling.{resource_of, record_event, advance, issue_one}

pub record SettleInput : Type 0 where
  pub approval_id : String
  pub action : Action
  pub strong_auth_completed : Bool
  pub confirmations : ℤ

-- What is nil is `none`.
pub record SettleResult : Type 0 where
  pub approval : Approval
  pub decision : Decision
  pub request : CapabilityRequest
  pub lease : Option Lease
  pub memory : Option Memory
  pub replayed : Bool

-- The event that `recordSettlement` records.
unfoldable pub settlement_event :
    CapabilityRequest → Decision → Scope → String → EventType → EventOutcome → Event
unfolding resource_of
settlement_event request written granted approval_id type outcome = record {
  operation_id = request.operation_id;
  type = type;
  agent_id = request.agent_id;
  workspace_id = request.workspace_id;
  identity_id = written.identity_id;
  service = granted.service;
  operation = granted.operation;
  resource = resource_of request;
  resolved_scope = written.resolved_scope;
  verdict = some written.verdict;
  risk_level = written.risk_level;
  decision_id = written.id;
  approval_id = approval_id;
  lease_id = "";
  lease_status = none;
  outcome = outcome;
  metadata = Metadata.reason written.reason_code;
}

-- An approval may set the limit of requests.
unfoldable pub limited : Scope → Settlement → Scope
limited granted settlement =
    if leb_ℤ (pos 1) settlement.request_limit
    then record granted { request_limit = settlement.request_limit }
    else granted

-- What `grant` asks the lease manager for.
unfoldable pub request_granted : Decision → Scope → Settlement → IssueRequest
unfolding limited
request_granted written granted settlement = record {
  granted = limited granted settlement;
  approval_id = settlement.approval.id;
  source_memory_id = written.trust_memory_id;
  is_session_bound = settlement.session_bound;
}

-- What `learn` asks the trust manager for; the lifetime is the default.
unfoldable pub to_learn : Decision → Scope → Settlement → Behavior → GenerateRequest
to_learn written granted settlement behavior = record {
  approved = granted;
  learned = granted;
  approval_id = settlement.approval.id;
  risk_level = written.risk_level;
  behavior = behavior;
  ttl = pos 0;
}

-- The result before anything follows from it.
abbrev pub first_result : CapabilityRequest → Decision → Settlement → SettleResult
first_result request written settlement = record {
  approval = settlement.approval;
  decision = written;
  request = request;
  lease = none;
  memory = none;
  replayed = settlement.replayed;
}

module _ (p : Pipeline) where
  -- `decodeScope`; the codec and the checks are those of a lease's scope.
  abbrev pub decode_scope : String → Result Scope
  decode_scope text = decode_grant p.codec text

  -- The repository's refusal of a second answer turns into a replay.
  unfoldable pub settle_again : SettleRequest → Settlement → Code → Run Settlement
  settle_again q consequence code =
      if is_conflict code
      then (attempt
            (call (λ h. p.services.approval_by_id h q.approval_id) (approval_read q.approval_id))
          >>= λ reread. lift (replay q consequence reread))
      else fail code

  unfoldable pub settle_end : SettleRequest → Settlement → Result Approval → Run Settlement
  unfolding settle_again
  settle_end q consequence (ok settled) = return (record consequence { approval = settled })
  settle_end q consequence (err code) = settle_again q consequence code

  -- `Manager.Settle`
  unfoldable pub settle_item : SettleRequest → Run Settlement
  unfolding settle_end settled_status
  settle_item q = do
    consequence ← lift (check_settle q)
    now ← read_clock p
    written ← attempt (
        call
          (λ h.
            p.services.settle_approval h q.approval_id q.action (settled_status consequence) now)
          (approval_settled q.action (settled_status consequence)))
    settle_end q consequence written

  unfoldable pub record_settlement :
      CapabilityRequest → Decision → Scope → String → EventType → EventOutcome → Run (Unit {0})
  record_settlement request written granted approval_id type outcome =
      record_event p (settlement_event request written granted approval_id type outcome)

  -- What is checked before the answer is used up: the window of the scope, and only to allow.
  unfoldable pub check_window : Action → Decision → Run (Unit {0})
  check_window action written =
      if allows action
      then (lift (decode_scope written.resolved_scope) >>= λ granted. read_clock p >>= λ now.
          lift (if ltb now granted.expires_at then ok tt else err approval_timeout))
      else return tt

  -- `replayed`
  unfoldable pub lease_of_replay : SettleResult → Result Lease → Run SettleResult
  unfolding is_not_found
  lease_of_replay result (ok issued) = return (record result { lease = some issued })
  lease_of_replay result (err code) = fail (if is_not_found code then conflict else code)

  unfoldable pub replayed : SettleResult → Settlement → Run SettleResult
  unfolding lease_of_replay
  replayed result settlement =
      if settlement.allowed
      then (attempt (
            call (λ h. p.services.issued_for h settlement.approval.id)
              (issued_lease_read settlement.approval.id))
          >>= lease_of_replay result)
      else return result

  -- `grant`
  unfoldable pub grant : CapabilityRequest → Decision → Scope → Settlement → Run Lease
  unfolding issue_one record_settlement
  grant request written granted settlement = do
    record_settlement request written granted settlement.approval.id user_allowed succeeded
    issue_one p (request_granted written granted settlement)

  -- `learn`
  unfoldable pub learn_as : Decision → Scope → Settlement → Option Behavior → Run (Option Memory)
  learn_as written granted settlement none = return none
  learn_as written granted settlement (some behavior) = do
    memory ←
        call (λ h. p.services.generate_memory h (to_learn written granted settlement behavior))
          (memory_generated (to_learn written granted settlement behavior))
    return (some memory)

  unfoldable pub learn : Decision → Scope → Settlement → Run (Option Memory)
  unfolding learn_as
  learn written granted settlement = learn_as written granted settlement settlement.learn

  -- The two halves of `applySettlement`.
  unfoldable pub reject :
      SettleResult → Settlement → CapabilityRequest → Decision → Scope → Run SettleResult
  unfolding record_settlement
  reject result settlement request written granted = do
    record_settlement request written granted settlement.approval.id EventType.denied
        EventOutcome.blocked
    advanced ← advance p request RequestStatus.rejected
    return (record result { request = advanced })

  unfoldable pub approve :
      SettleResult → Settlement → CapabilityRequest → Decision → Scope → Run SettleResult
  unfolding grant learn
  approve result settlement request written granted = do
    issued ← grant request written granted settlement
    learned ← learn written granted settlement
    advanced ← advance p request RequestStatus.approved
    return (record result { lease = some issued; memory = learned; request = advanced })

  unfoldable pub apply_settlement :
      SettleResult → Settlement → CapabilityRequest → Decision → Run SettleResult
  unfolding reject approve
  apply_settlement result settlement request written =
      lift (decode_scope written.resolved_scope) >>= λ granted.
      if settlement.allowed
      then approve result settlement request written granted
      else reject result settlement request written granted

  -- What the item, its decision and the mode ask of an answer.
  unfoldable pub asked_of : SettleInput → Decision → SettleRequest
  unfolding required_confirmations
  asked_of input written = record {
    approval_id = input.approval_id;
    action = input.action;
    risk_level = written.risk_level;
    strong_auth_completed = input.strong_auth_completed;
    requirement = written.approval_requirement;
    required_confirmations = pos (required_confirmations p.mode written.risk_level);
    confirmations = input.confirmations;
  }

  unfoldable pub after_settle : CapabilityRequest → Decision → Settlement → Run SettleResult
  unfolding replayed apply_settlement
  after_settle request written settlement =
      if settlement.replayed
      then replayed (first_result request written settlement) settlement
      else apply_settlement (first_result request written settlement) settlement request written

  -- `SettleApproval`
  unfoldable pub settle_approval : SettleInput → Run SettleResult
  unfolding settle_item check_window asked_of after_settle
  settle_approval input = do
    item ←
        call (λ h. p.services.approval_by_id h input.approval_id) (approval_read input.approval_id)
    written ←
        call (λ h. p.services.decision_by_id h item.decision_id) (decision_read item.decision_id)
    request ←
        call (λ h. p.services.request_by_id h written.capability_request_id)
          (request_read written.capability_request_id)
    check_window input.action written
    settlement ← settle_item (asked_of input written)
    after_settle request written settlement
