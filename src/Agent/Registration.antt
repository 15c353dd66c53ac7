-- ===== src/Agent/Registration.antt =====
-- internal/core/agentauth/service.go: what an agent hands in, and its checks.
use open_delo.Prelude.{ℕ, String, Bool, not, if◌then◌else◌, ◌==◌}
use open_delo.Prelude.Int.{ℤ, is_pos, is_neg}
use open_delo.Prelude.Text.{same_number}
use open_delo.Platform.AppError.{
  Result, ok, err, ensure, ◌>>=◌, ◌>>◌, agent_identity_unverifiable, invalid_request,
}
use open_delo.Agent.Identity.{AgentType, valid_type}

pub record Registration : Type 0 where
  pub name : String
  pub agent_type : AgentType
  pub version : String
  pub executable_hash : String
  pub executable_path : String
  pub pid : ℤ
  pub parent_pid : ℤ
  pub os_user : String
  pub device_fingerprint : String
  pub device_name : String
  pub workspace_path : String
  pub project_fingerprint : String
  pub started_at : ℕ

-- `Clean` and `IsAbs` of Go's path/filepath.
pub record Paths : Type 0 where
  pub clean : String → String
  pub is_abs : String → Bool

-- `text != ""`
unfoldable pub filled : String → Bool
filled text = not (text == "")

-- The parts of the identity, in the order of the code.
unfoldable pub check_identity : Registration → Result (Unit {0})
unfolding filled
check_identity q = do
  ensure (filled q.executable_hash) agent_identity_unverifiable
  ensure (filled q.executable_path) agent_identity_unverifiable
  ensure (is_pos q.pid) agent_identity_unverifiable
  ensure (not (is_neg q.parent_pid)) agent_identity_unverifiable
  ensure (filled q.os_user) agent_identity_unverifiable
  ensure (filled q.device_fingerprint) agent_identity_unverifiable
  ensure (filled q.workspace_path) agent_identity_unverifiable
  ensure (filled q.project_fingerprint) agent_identity_unverifiable
  ensure (not (same_number q.started_at 0)) agent_identity_unverifiable

-- What is only shown.
unfoldable pub check_shown : Registration → Result (Unit {0})
unfolding filled valid_type
check_shown q = do
  ensure (filled q.name) invalid_request
  ensure (valid_type q.agent_type) invalid_request
  ensure (filled q.device_name) invalid_request

unfoldable pub absolute_path : Paths → String → Result String
absolute_path paths raw =
    let cleaned = paths.clean raw in
    if paths.is_abs cleaned then ok cleaned else err agent_identity_unverifiable

unfoldable pub normalize : Paths → Registration → Result Registration
normalize paths q = do
  check_identity q
  check_shown q
  executable ← absolute_path paths q.executable_path
  workspace ← absolute_path paths q.workspace_path
  ok (record q { executable_path = executable; workspace_path = workspace })
