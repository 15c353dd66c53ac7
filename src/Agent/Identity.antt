-- ===== src/Agent/Identity.antt =====
-- internal/core/agentauth/identity.go and repository.go: agents, devices and workspaces. Times are in
-- nanoseconds, 0 is Go's zero time.
use open_delo.Prelude.{ℕ, String, Bool, true, false}
use open_delo.Prelude.Int.{ℤ}
use open_delo.Risk.Level.{TrustLevel, DeviceTrust}

-- `other` is every text that is none of the named ones.
pub data AgentType : Type 0 where
  claude_code codex gemini_cli open_code generic : AgentType
  other : String → AgentType

pub data AgentStatus : Type 0 where
  active disconnected : AgentStatus
  other : String → AgentStatus

pub record Device : Type 0 where
  pub id : String
  pub fingerprint : String
  pub name : String
  pub trust_status : DeviceTrust
  pub created_at : ℕ
  pub updated_at : ℕ

pub record Workspace : Type 0 where
  pub id : String
  pub path : String
  pub project_fingerprint : String
  pub created_at : ℕ
  pub updated_at : ℕ

pub record Agent : Type 0 where
  pub id : String
  pub name : String
  pub agent_type : AgentType
  pub version : String
  pub executable_hash : String
  pub executable_path : String
  pub pid : ℤ
  pub parent_pid : ℤ
  pub os_user : String
  pub device_id : String
  pub workspace_id : String
  pub started_at : ℕ
  pub session_key_hash : String
  pub session_expires_at : ℕ
  pub trust_level : TrustLevel
  pub status : AgentStatus
  pub last_seen_at : ℕ
  pub created_at : ℕ
  pub updated_at : ℕ

-- What stays the same of an agent from one start to the next.
pub record Binding : Type 0 where
  pub device_id : String
  pub workspace_id : String
  pub executable_path : String
  pub os_user : String
  pub executable_hash : String

-- What a start writes anew.
pub record Rebind : Type 0 where
  pub pid : ℤ
  pub parent_pid : ℤ
  pub started_at : ℕ
  pub session_key_hash : String
  pub session_expires_at : ℕ
  pub at : ℕ

-- service.go `valid`
unfoldable pub valid_type : AgentType → Bool
valid_type (AgentType.other _) = false
valid_type _ = true

-- `status == StatusActive`
unfoldable pub is_active : AgentStatus → Bool
is_active AgentStatus.active = true
is_active _ = false
