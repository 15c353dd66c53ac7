-- ===== src/Agent/Register.antt =====
-- internal/core/agentauth/service.go and session.go: registration and session keys.
use open_delo.Prelude.{
  ℕ, ◌+◌, String, Bool, true, false, Option, none, some, List, length, ltb, if◌then◌else◌, ◌==◌,
}
use open_delo.Prelude.Int.{ℤ, pos_part}
use open_delo.Prelude.Sorting.{◌+++◌}
use open_delo.Prelude.Text.{same_number}
use open_delo.Platform.AppError.{Result, ok, err, is_not_found, internal}
use open_delo.Risk.Level.{TrustLevel, DeviceTrust}
use open_delo.Agent.Identity.{AgentStatus, Device, Workspace, Agent, Binding, Rebind}
use open_delo.Agent.Store.{Run, return, lift, ◌>>=◌}
use open_delo.Agent.Devices.{
  create_device, device_by_fingerprint, create_workspace, workspace_by_path,
  set_workspace_fingerprint,
}
use open_delo.Agent.Agents.{create_agent, agent_by_binding, rebind_agent}
use open_delo.Agent.Registration.{Registration, Paths, normalize}

-- Go's base64 of some bytes, and the hexadecimal SHA-256 of a text.
pub record Crypto : Type 0 where
  pub encode : List ℕ → String
  pub digest : String → String

-- What the clock, the source of randomness and the generator of keys return to one call; the three
-- keys are those of a device, a workspace and an agent.
pub record Draws : Type 0 where
  pub now : ℕ
  pub entropy : Option (List ℕ)
  pub device_id : Option String
  pub workspace_id : Option String
  pub agent_id : Option String

pub record Registered : Type 0 where
  pub agent : Agent
  pub session_key : String
  pub is_rebind : Bool
  pub project_fingerprint_changed : Bool

-- An hour.
abbrev pub default_session_ttl : ℕ
default_session_ttl = 3_600_000_000_000

-- `NewService`: what the options ask for where it is positive.
unfoldable pub session_ttl : ℤ → ℕ
session_ttl ttl = if ltb 0 (pos_part ttl) then pos_part ttl else default_session_ttl

unfoldable pub drawn {ℓ} : {A : Type ℓ} → Option A → Run A
drawn none = lift (err internal)
drawn (some a) = lift (ok a)

abbrev pub session_key_bytes : ℕ
session_key_bytes = 32

module _ (crypto : Crypto) where
  -- The read of the bytes fails, or ends before all of them are there.
  unfoldable pub generate_session_key : Option (List ℕ) → Result String
  generate_session_key none = err internal
  generate_session_key (some bytes) =
      if same_number (length bytes) session_key_bytes
      then ok (crypto.encode bytes)
      else err internal

  unfoldable pub hash_session_key : String → String
  hash_session_key key = "sha256:" +++ crypto.digest key

unfoldable pub device_after : Draws → Registration → Result Device → Run Device
unfolding drawn
device_after draws q (ok device) = return device
device_after draws q (err code) =
    if is_not_found code
    then (do
      id ← drawn draws.device_id
      create_device (record {
        id = id;
        fingerprint = q.device_fingerprint;
        name = q.device_name;
        trust_status = DeviceTrust.untrusted;
        created_at = draws.now;
        updated_at = draws.now;
      }))
    else lift (err code)

unfoldable pub resolve_device : Draws → Registration → Run Device
unfolding device_after
resolve_device draws q store =
    device_after draws q (device_by_fingerprint q.device_fingerprint store) store

-- The workspace, and whether its fingerprint changed.
unfoldable pub workspace_after : Draws → Registration → Result Workspace → Run (Workspace × Bool)
unfolding drawn
workspace_after draws q (ok workspace) =
    if workspace.project_fingerprint == q.project_fingerprint
    then return (workspace, false)
    else (do
      changed ← set_workspace_fingerprint workspace.id q.project_fingerprint draws.now
      return (changed, true))
workspace_after draws q (err code) =
    if is_not_found code
    then (do
      id ← drawn draws.workspace_id
      created ← create_workspace (record {
        id = id;
        path = q.workspace_path;
        project_fingerprint = q.project_fingerprint;
        created_at = draws.now;
        updated_at = draws.now;
      })
      return (created, false))
    else lift (err code)

unfoldable pub resolve_workspace : Draws → Registration → Run (Workspace × Bool)
unfolding workspace_after
resolve_workspace draws q store =
    workspace_after draws q (workspace_by_path q.workspace_path store) store

unfoldable pub new_agent : String → Registration → String → String → String → ℕ → ℕ → Agent
new_agent id q device workspace hash expires now = record {
  id = id;
  name = q.name;
  agent_type = q.agent_type;
  version = q.version;
  executable_hash = q.executable_hash;
  executable_path = q.executable_path;
  pid = q.pid;
  parent_pid = q.parent_pid;
  os_user = q.os_user;
  device_id = device;
  workspace_id = workspace;
  started_at = q.started_at;
  session_key_hash = hash;
  session_expires_at = expires;
  trust_level = TrustLevel.unverified;
  status = AgentStatus.active;
  last_seen_at = now;
  created_at = now;
  updated_at = now;
}

unfoldable pub binding_of : Registration → String → String → Binding
binding_of q device workspace = record {
  device_id = device;
  workspace_id = workspace;
  executable_path = q.executable_path;
  os_user = q.os_user;
  executable_hash = q.executable_hash;
}

unfoldable pub rebind_of : Registration → String → ℕ → ℕ → Rebind
rebind_of q hash expires now = record {
  pid = q.pid;
  parent_pid = q.parent_pid;
  started_at = q.started_at;
  session_key_hash = hash;
  session_expires_at = expires;
  at = now;
}

-- `createAgent`
unfoldable pub register_new : Draws → Registration → String → String → String → ℕ → Run Agent
unfolding drawn
register_new draws q device workspace hash expires = do
  id ← drawn draws.agent_id
  create_agent (new_agent id q device workspace hash expires draws.now)

-- The agent, and whether it was there before; `existing` is what `AgentByBinding` returns.
unfoldable pub agent_after :
    Draws → Registration → String → String → String → ℕ → Result Agent → Run (Agent × Bool)
unfolding register_new
agent_after draws q device workspace hash expires (ok existing) = do
  agent ← rebind_agent existing.id (rebind_of q hash expires draws.now)
  return (agent, true)
agent_after draws q device workspace hash expires (err code) =
    if is_not_found code
    then (do agent ← register_new draws q device workspace hash expires; return (agent, false))
    else lift (err code)

unfoldable pub bind_agent : Draws → Registration → String → String → String → ℕ → Run (Agent × Bool)
unfolding agent_after
bind_agent draws q device workspace hash expires store =
    agent_after draws q device workspace hash expires
      (agent_by_binding (binding_of q device workspace) store) store

module _ (paths : Paths) (crypto : Crypto) (ttl : ℤ) where
  -- `Register` from the session key on.
  unfoldable pub issue_key : Draws → Registration → Device → Workspace × Bool → Run Registered
  issue_key draws q device resolved = do
    key ← lift (generate_session_key crypto draws.entropy)
    bound ←
        bind_agent draws q device.id resolved.0.id (hash_session_key crypto key)
          (draws.now + session_ttl ttl)
    return (record {
      agent = bound.0;
      session_key = key;
      is_rebind = bound.1;
      project_fingerprint_changed = resolved.1;
    })

  unfoldable pub register : Draws → Registration → Run Registered
  unfolding issue_key
  register draws raw = do
    q ← lift (normalize paths raw)
    device ← resolve_device draws q
    resolved ← resolve_workspace draws q
    issue_key draws q device resolved
