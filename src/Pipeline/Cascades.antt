-- ===== src/Pipeline/Cascades.antt =====
-- internal/core/pipeline/{agent,identity,expire}.go, and the records of settle.go that stand apart
-- from a request.
use open_delo.Prelude.{ℕ, suc, String, ◌||◌, some, List, [], ◌∷◌, if◌then◌else◌, ◌==◌}
use open_delo.Prelude.Int.{ℤ}
use open_delo.Platform.AppError.{invalid_request}
use open_delo.Matcher.Identity.{Identity, IdentityStatus}
use open_delo.Decision.Verdicts.{deny}
use open_delo.Decision.FailClosed.{Blocker}
use open_delo.Approval.Items.{Action, Status, Approval}
use open_delo.Lease.Rows.{Lease}
use open_delo.Trust.Memories.{InvalidationReason}
use open_delo.Pipeline.Requests.{
  RequestStatus, CapabilityRequest, Event, EventType, EventOutcome, Metadata, succeeded,
}
use open_delo.Pipeline.Calls.{
  decision_read, request_read, approval_settled, approvals_due_read, memory_read, memory_deleted,
  agent_disconnected, bound_leases_read, issued_leases_read, identity_read, memories_invalidated,
  identity_marked, Run, return, fail, lift, call, ◌>>=◌, ◌>>◌,
}
use open_delo.Pipeline.Calls
use open_delo.Pipeline.Services.{Pipeline}
use open_delo.Pipeline.Resolving.{read_clock}
use open_delo.Pipeline.Handling.{record_event, advance}
use open_delo.Pipeline.Settling.{decode_scope, record_settlement}
use open_delo.Pipeline.Records.{
  SessionRevocation, IdentityRevocation, BlockedRequest, cascade_limit, revocation_event,
  plain_event, clearing_event,
}

module _ (p : Pipeline) where
  abbrev pub revoke_lease : String → Run Lease
  revoke_lease id = call (λ h. p.services.revoke_lease h id) (Calls.lease_revoked id)

  -- The loops of `revokeSessionLeasesOf` and `revokeLeasesOf`: each revocation is recorded first.
  unfoldable pub revoke_each : (Lease → Event) → List Lease → Run (List Lease)
  revoke_each event [] = return []
  revoke_each event (granted ∷ rest) = do
    record_event p (event granted)
    closed ← revoke_lease granted.id
    others ← revoke_each event rest
    return (closed ∷ others)

  unfoldable pub revoke_session_leases_of : String → String → Run (List Lease)
  unfolding revoke_each
  revoke_session_leases_of agent operation = do
    bound ←
        call (λ h. p.services.bound_to_session_of h agent cascade_limit) (bound_leases_read agent)
    revoke_each (λ l. revocation_event l.identity_id Metadata.agent_session_ended operation l) bound

  unfoldable pub disconnect_agent : String → String → Run SessionRevocation
  unfolding revoke_session_leases_of
  disconnect_agent agent operation =
      if agent == "" || operation == ""
      then fail invalid_request
      else (call (λ h. p.services.disconnect_agent h agent) (agent_disconnected agent)
          >>= λ disconnected. revoke_session_leases_of agent operation >>= λ revoked.
              return (record { agent = disconnected; revoked_leases = revoked }))

  unfoldable pub revoke_leases_of : Identity → String → Run (List Lease)
  unfolding revoke_each
  revoke_leases_of identity operation = do
    active ←
        call (λ h. p.services.issued_to h identity.id cascade_limit)
          (issued_leases_read identity.id)
    revoke_each (revocation_event identity.id Metadata.identity_disconnected operation) active

  unfoldable pub mark_identity : String → Run Identity
  mark_identity id = do
    now ← read_clock p
    call (λ h. p.services.set_identity_status h id IdentityStatus.needs_review now)
        (identity_marked id IdentityStatus.needs_review)

  unfoldable pub disconnect_identity : String → String → Run IdentityRevocation
  unfolding revoke_leases_of mark_identity
  disconnect_identity id operation =
      if id == "" || operation == ""
      then fail invalid_request
      else (call (λ h. p.services.identity_by_id h id) (identity_read id) >>= λ identity.
          revoke_leases_of identity operation >>= λ revoked.
          call
            (λ h.
              p.services.invalidate_for_identity h id InvalidationReason.identity_scope_changed
                cascade_limit)
            (memories_invalidated id)
          >>= λ invalidated. mark_identity id >>= λ updated. return (record {
            identity = updated;
            revoked_leases = revoked;
            invalidated_memories = invalidated;
          }))

  -- `Manager.Expire` of the approvals
  unfoldable pub close_due : ℕ → List Approval → Run (List Approval)
  close_due now [] = return []
  close_due now (waiting ∷ rest) = do
    closed ←
        call (λ h. p.services.settle_approval h waiting.id Action.deny Status.expired now)
          (approval_settled Action.deny Status.expired)
    others ← close_due now rest
    return (closed ∷ others)

  unfoldable pub expire : ℤ → Run (List Approval)
  unfolding close_due
  expire limit = do
    now ← read_clock p
    due ← call (λ h. p.services.approvals_due_before h now limit) approvals_due_read
    close_due now due

  -- One turn of the loop of `ExpireApprovals`.
  unfoldable pub record_expiry : Approval → Run CapabilityRequest
  unfolding record_settlement
  record_expiry item = do
    written ←
        call (λ h. p.services.decision_by_id h item.decision_id) (decision_read item.decision_id)
    request ←
        call (λ h. p.services.request_by_id h written.capability_request_id)
          (request_read written.capability_request_id)
    granted ← lift (decode_scope p written.resolved_scope)
    record_settlement p request written granted item.id EventType.approval_expired
        EventOutcome.blocked
    advance p request RequestStatus.rejected

  unfoldable pub record_each : List Approval → Run ℕ
  unfolding record_expiry
  record_each [] = return 0
  record_each (item ∷ rest) = do
    advanced ← record_expiry item
    closed ← record_each rest
    return (suc closed)

  unfoldable pub expire_approvals : ℤ → Run ℕ
  unfolding expire record_each
  expire_approvals limit = do expired ← expire limit; record_each expired

  unfoldable pub record_secret_request_blocked : BlockedRequest → Run (Unit {0})
  unfolding plain_event
  record_secret_request_blocked blocked =
      record_event p
        (record (plain_event blocked.operation_id EventType.secret_request_blocked blocked.service
          blocked.operation EventOutcome.blocked
          (Metadata.blocker Blocker.capability_not_offered)) {
            agent_id = blocked.agent_id;
            workspace_id = blocked.workspace_id;
            verdict = some deny;
          })

  unfoldable pub record_strong_auth_locked : String → ℤ → Run (Unit {0})
  unfolding plain_event
  record_strong_auth_locked operation seconds = record_event p (
      plain_event operation EventType.strong_auth_locked "opendelo" "vault.unlock"
        EventOutcome.blocked (Metadata.lockout_seconds seconds))

  unfoldable pub record_agent_trusted : String → String → Run (Unit {0})
  unfolding plain_event
  record_agent_trusted agent operation =
      record_event p
        (record (plain_event operation EventType.agent_trusted "opendelo" "agent.trust" succeeded
          Metadata.trust_level_known) { agent_id = agent })

  unfoldable pub clear_trust_memory : String → String → Run (Unit {0})
  unfolding clearing_event
  clear_trust_memory id operation = do
    cleared ← call (λ h. p.services.memory_by_id h id) (memory_read id)
    record_event p (clearing_event operation cleared)
    call (λ h. p.services.delete_memory h id) (memory_deleted id)
