-- ===== src/Platform/Audit/Recorder.antt =====
-- internal/platform/audit/recorder.go and event.go: the one way into the audit trail.
use open_delo.Prelude.{ℕ, String, Bool, not, Option, none, some, List, [], ◌∷◌, any, ◌==◌}
use open_delo.Prelude.Int.{ℤ}
use open_delo.Prelude.Text.{Letters}
use open_delo.Platform.AppError.{Result, ok, err, ensure, ◌>>=◌, ◌>>◌, invalid_request, internal}
use open_delo.Platform.Audit.Redaction.{Json, redact_json_object, redact_metadata}

pub record Event : Type 0 where
  pub id : String
  pub operation_id : String
  pub event_type : String
  pub agent_id : String
  pub device_id : String
  pub workspace_id : String
  pub identity_id : String
  pub credential_provider_id : String
  pub service : String
  pub operation : String
  pub resource : String
  pub resolved_scope : String
  pub verdict : String
  pub risk_level : String
  pub decision_id : String
  pub approval_id : String
  pub lease_id : String
  pub lease_status : String
  pub outcome : String
  pub response_status : ℤ
  pub duration : ℤ
  pub is_redacted : Bool
  pub metadata : String
  pub created_at : ℕ

abbrev pub event_types : List String
event_types =
    "decision.auto_allowed" ∷ "decision.user_allowed" ∷ "decision.denied" ∷ "lease.created"
    ∷ "lease.expired" ∷ "lease.revoked" ∷ "adapter.executed" ∷ "error" ∷ "identity.matched"
    ∷ "risk.changed" ∷ "security.scope_injection_ignored" ∷ "security.secret_request_blocked"
    ∷ "security.strong_auth_locked" ∷ "trust.cleared" ∷ "audit.pruned" ∷ "agent.identity_mismatch"
    ∷ "agent.trusted" ∷ "approval.expired" ∷ []

unfoldable pub is_registered : String → Bool
is_registered type = any (λ t. t == type) event_types

module _ (letters : Letters) (json : Json) where
  -- `new_id` is what the generator of keys returns, `none` where it fails.
  unfoldable pub prepare : Option String → ℕ → Event → Result Event
  prepare new_id now event = do
    id ← (elim new_id [ none ↦ err internal | some id ↦ ok id ])
    resource ← redact_json_object letters json event.resource
    resolved_scope ← redact_json_object letters json event.resolved_scope
    metadata ← redact_metadata letters json event.metadata
    ok (record event {
      id = id;
      created_at = now;
      resource = resource;
      resolved_scope = resolved_scope;
      metadata = metadata;
    })

  unfoldable pub checked : Option String → ℕ → Event → Result Event
  unfolding is_registered prepare
  checked new_id now event = do
    ensure (is_registered event.event_type) invalid_request
    ensure (not (event.operation_id == "")) invalid_request
    prepare new_id now event

  -- `Record`: what is handed to `Append`, if anything, and what is returned; `append` is what the
  -- repository returns.
  unfoldable pub record_event :
      (Event → Result Event) → Option String → ℕ → Event → Option Event × Result Event
  unfolding checked
  record_event append new_id now event = elim (checked new_id now event) [
    | err code ↦ (none, err code)
    | ok prepared ↦ (some prepared, append prepared)
  ]
