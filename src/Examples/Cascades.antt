-- ===== src/Examples/Cascades.antt =====
-- Runs of the cascades of internal/core/pipeline on concrete inputs.
use open_delo.Prelude.{any, ◌||◌, ◌≡◌, refl, true, false, some, [], ◌∷◌, ◌++◌, take, drop}
use open_delo.Prelude.Int.{pos}
use open_delo.Matcher.Identity.{IdentityStatus, production}
use open_delo.Risk.Level.{Level}
use open_delo.Approval.Items.{Action, Status, Behavior}
use open_delo.Lease.Rows.{Lease, revoked}
use open_delo.Trust.Memories.{Memory, InvalidationReason}
use open_delo.Trust.Memories as Memories
use open_delo.Lease.Manager.{wrapped, decode_grant}
use open_delo.Scope.Dimensions.{is_valid, check_dimensions, dimension_checks}
use open_delo.Pipeline.Calls.{
  done, History, Answer, approval_settled, memory_deleted, return, fail, lift, call, ◌>>=◌, ◌>>◌,
}
use open_delo.Pipeline.Calls
use open_delo.Pipeline.Services.{Pipeline}
use open_delo.Pipeline.Records.{SessionRevocation, IdentityRevocation}
use open_delo.Pipeline.Cascades.{
  revoke_each, revoke_session_leases_of, disconnect_agent, revoke_leases_of, mark_identity,
  disconnect_identity, close_due, expire, record_expiry, record_each, expire_approvals,
  clear_trust_memory,
}
use open_delo.Pipeline.Handling.{advance}
use open_delo.Pipeline.Settling.{record_settlement}
use open_delo.Pipeline.Cascading.{IdentityEnded}
use open_delo.Pipeline.Tracks.{notes, starts, invalidates, marks, clears, expires}
use open_delo.Pipeline.Revocations.{
  disconnect_agent-order, disconnect_identity-order, expire_approvals-order,
  clear_trust_memory-order, disconnect_identity-IdentityEnded,
}
use open_delo.Examples.Samples.{work, read_scope}
use open_delo.Examples.Leases.{sample_codec}
use open_delo.Examples.Services.{pipeline, services, lease_for, item}
use open_delo.Examples.Agents.{ended}
use open_delo.Examples.Pipelines.{issued}

abbrev granted : Lease
granted = lease_for issued

abbrev memory : Memory
memory = record {
  id = "memory-1";
  agent_id = "agent-1";
  workspace_id = "workspace-1";
  identity_id = "id-work";
  service = "calendar";
  resource_scope = "read";
  capability_scope = "names";
  environment = production;
  risk_ceiling = Level.low;
  behavior = Behavior.auto_allow;
  created_from = "approval-1";
  status = Memories.Status.active;
  invalidation_reason = InvalidationReason.other "";
  last_used_at = 0;
  expires_at = 900;
  created_at = 0;
  updated_at = 0;
}

-- One lease, one memory and two items that are due.
abbrev cascading : Pipeline
cascading = record pipeline {
  services = record services {
    disconnect_agent = λ h id. done ended;
    bound_to_session_of = λ h id limit. done (granted ∷ []);
    issued_to = λ h id limit. done (granted ∷ []);
    revoke_lease = λ h id. done (record granted { status = revoked });
    identity_by_id = λ h id. done work;
    invalidate_for_identity = λ h id reason limit. done (memory ∷ []);
    set_identity_status = λ h id status at. done (record work { status = status });
    memory_by_id = λ h id. done memory;
    approvals_due_before = λ h before limit. done (item ∷ item ∷ []);
  };
  codec = record sample_codec { unmarshal_scope = λ text. some read_scope };
}

abbrev session : SessionRevocation
session = record { agent = ended; revoked_leases = record granted { status = revoked } ∷ [] }

abbrev identity : IdentityRevocation
identity = record {
  identity = record work { status = IdentityStatus.needs_review };
  revoked_leases = record granted { status = revoked } ∷ [];
  invalidated_memories = memory ∷ [];
}

agent_run : History
agent_run = (disconnect_agent cascading "agent-1" "operation-1" []).0

identity_run : History
identity_run = (disconnect_identity cascading "id-work" "operation-1" []).0

expiry_run : History
expiry_run = (expire_approvals cascading (pos 10) []).0

clearing_run : History
clearing_run = (clear_trust_memory cascading "memory-1" "operation-1" []).0

agent_ran :
    (disconnect_agent cascading "agent-1" "operation-1" [] ≡ (agent_run, done session))
    × (agent_run
        ≡ Calls.lease_revoked granted.id (done (record granted { status = revoked }))
          ∷ drop 1 agent_run)
unfolding agent_run disconnect_agent revoke_session_leases_of revoke_each ◌>>=◌ ◌>>◌ call return
agent_ran = (refl, refl)

disconnect_agent-order_example :
    (any (notes granted.id) (drop 1 agent_run) ≡ true) × (any starts (drop 1 agent_run) ≡ true)
unfolding agent_run
disconnect_agent-order_example =
    disconnect_agent-order cascading "agent-1" "operation-1" granted.id
      (done (record granted { status = revoked })) [] (drop 1 agent_run) agent_ran.1

identity_ran :
    (disconnect_identity cascading "id-work" "operation-1" [] ≡ (identity_run, done identity))
    × (identity_run
        ≡ take 3 identity_run
          ++ Calls.lease_revoked granted.id (done (record granted { status = revoked }))
            ∷ drop 4 identity_run)
unfolding identity_run disconnect_identity revoke_leases_of revoke_each mark_identity ◌>>=◌ ◌>>◌
    call return
identity_ran = (refl, refl)

disconnect_identity-IdentityEnded_example : IdentityEnded cascading "id-work" identity identity_run
disconnect_identity-IdentityEnded_example =
    disconnect_identity-IdentityEnded cascading "id-work" "operation-1" identity identity_run
      identity_ran.0

disconnect_identity-order_example :
    (any (notes granted.id) (drop 4 identity_run) ≡ true)
    × (any starts (drop 4 identity_run) ≡ true)
    × (any (λ c. invalidates c || marks c) (drop 4 identity_run) ≡ false)
unfolding identity_run
disconnect_identity-order_example =
    disconnect_identity-order cascading "id-work" "operation-1" granted.id
      (done (record granted { status = revoked })) (take 3 identity_run) (drop 4 identity_run)
      identity_ran.1

expiry_ran :
    expiry_run
    ≡ take 10 expiry_run
      ++ approval_settled Action.deny Status.expired
          (done (record item { action = Action.deny; status = Status.expired; decided_at = 100 }))
        ∷ drop 11 expiry_run
unfolding expiry_run expire_approvals expire close_due record_each record_expiry record_settlement
    advance ◌>>=◌ ◌>>◌ call return lift fail decode_grant wrapped
    open_delo.Scope.Dimensions.validate is_valid check_dimensions dimension_checks
expiry_ran = refl

expire_approvals-order_example : any expires (drop 11 expiry_run) ≡ false
unfolding expiry_run
expire_approvals-order_example =
    expire_approvals-order cascading (pos 10) Action.deny Status.expired
      (done (record item { action = Action.deny; status = Status.expired; decided_at = 100 }))
      (take 10 expiry_run) (drop 11 expiry_run) expiry_ran

clearing_ran : clearing_run ≡ [] ++ memory_deleted "memory-1" (done tt) ∷ drop 1 clearing_run
unfolding clearing_run clear_trust_memory ◌>>=◌ ◌>>◌ call return
clearing_ran = refl

clear_trust_memory-order_example : any clears (drop 1 clearing_run) ≡ true
unfolding clearing_run
clear_trust_memory-order_example =
    clear_trust_memory-order cascading "memory-1" "operation-1" "memory-1" (done tt) []
      (drop 1 clearing_run) clearing_ran
