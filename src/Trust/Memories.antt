-- ===== src/Trust/Memories.antt =====
-- internal/core/trust/memory.go. A time is in nanoseconds since the zero time.
use open_delo.Prelude.{ℕ, String}
use open_delo.Risk.Level.{Level}
use open_delo.Matcher.Identity.{Environment}
use open_delo.Approval.Items.{Behavior}

pub data Status : Type 0 where
  active invalidated : Status
  other : String → Status

pub data InvalidationReason : Type 0 where
  provider_disconnected identity_scope_changed agent_executable_changed : InvalidationReason
  project_fingerprint_changed device_untrusted unused_too_long : InvalidationReason
  cautious_mode_selected adapter_risk_upgraded : InvalidationReason
  other : String → InvalidationReason

pub record Memory : Type 0 where
  pub id : String
  pub agent_id : String
  pub workspace_id : String
  pub identity_id : String
  pub service : String
  pub resource_scope : String
  pub capability_scope : String
  pub environment : Environment
  pub risk_ceiling : Level
  pub behavior : Behavior
  pub created_from : String
  pub status : Status
  pub invalidation_reason : InvalidationReason
  pub last_used_at : ℕ
  pub expires_at : ℕ
  pub created_at : ℕ
  pub updated_at : ℕ
