-- ===== src/Agent/Rows.antt =====
-- internal/store/repo/{agent,device,workspace}.go: records and rows. The time columns are in
-- milliseconds; a row of a device or a workspace has the fields of its record.
use open_delo.Prelude.{ℕ, String, Option, if◌then◌else◌, ◌&&◌, not}
use open_delo.Prelude.Int.{ℤ, pos, is_neg, leb_ℤ}
use open_delo.Platform.AppError.{Result, ok, err, ◌>>=◌, internal}
use open_delo.Risk.Level.{TrustLevel}
use open_delo.Lease.Rows.{encode_time, time_of, decode_time, optional_text, text_of, max_int32}
use open_delo.Agent.Identity.{AgentType, AgentStatus, Device, Workspace, Agent}

-- A row of the table of agents; NULL is `none`.
pub record AgentRow : Type 0 where
  pub id : String
  pub name : String
  pub agent_type : AgentType
  pub version : Option String
  pub executable_hash : String
  pub executable_path : String
  pub pid : ℤ
  pub parent_pid : ℤ
  pub os_user : String
  pub device_id : String
  pub workspace_id : String
  pub started_at : ℕ
  pub session_key_hash : String
  pub session_expires_at : ℕ
  pub trust_level : TrustLevel
  pub status : AgentStatus
  pub last_seen_at : ℕ
  pub created_at : ℕ
  pub updated_at : ℕ

unfoldable pub decode_process_id : ℤ → Result ℤ
decode_process_id v = if not (is_neg v) && leb_ℤ v (pos max_int32) then ok v else err internal

-- The arguments of `CreateAgent`.
unfoldable pub agent_row : Agent → AgentRow
unfolding encode_time optional_text
agent_row a = record {
  id = a.id;
  name = a.name;
  agent_type = a.agent_type;
  version = optional_text a.version;
  executable_hash = a.executable_hash;
  executable_path = a.executable_path;
  pid = a.pid;
  parent_pid = a.parent_pid;
  os_user = a.os_user;
  device_id = a.device_id;
  workspace_id = a.workspace_id;
  started_at = encode_time a.started_at;
  session_key_hash = a.session_key_hash;
  session_expires_at = encode_time a.session_expires_at;
  trust_level = a.trust_level;
  status = a.status;
  last_seen_at = encode_time a.last_seen_at;
  created_at = encode_time a.created_at;
  updated_at = encode_time a.updated_at;
}

-- The agent of a row whose times and process numbers are already checked.
unfoldable pub agent_of : AgentRow → Agent
agent_of r = record {
  id = r.id;
  name = r.name;
  agent_type = r.agent_type;
  version = text_of r.version;
  executable_hash = r.executable_hash;
  executable_path = r.executable_path;
  pid = r.pid;
  parent_pid = r.parent_pid;
  os_user = r.os_user;
  device_id = r.device_id;
  workspace_id = r.workspace_id;
  started_at = time_of r.started_at;
  session_key_hash = r.session_key_hash;
  session_expires_at = time_of r.session_expires_at;
  trust_level = r.trust_level;
  status = r.status;
  last_seen_at = time_of r.last_seen_at;
  created_at = time_of r.created_at;
  updated_at = time_of r.updated_at;
}

unfoldable pub to_agent : AgentRow → Result Agent
to_agent r = do
  started_at ← decode_time r.started_at
  session_expires_at ← decode_time r.session_expires_at
  last_seen_at ← decode_time r.last_seen_at
  created_at ← decode_time r.created_at
  updated_at ← decode_time r.updated_at
  pid ← decode_process_id r.pid
  parent ← decode_process_id r.parent_pid
  ok (agent_of r)

unfoldable pub device_row : Device → Device
unfolding encode_time
device_row d = record d {
  created_at = encode_time d.created_at;
  updated_at = encode_time d.updated_at;
}

unfoldable pub to_device : Device → Result Device
to_device r = do
  created_at ← decode_time r.created_at
  updated_at ← decode_time r.updated_at
  ok (record r { created_at = created_at; updated_at = updated_at })

unfoldable pub workspace_row : Workspace → Workspace
unfolding encode_time
workspace_row w = record w {
  created_at = encode_time w.created_at;
  updated_at = encode_time w.updated_at;
}

unfoldable pub to_workspace : Workspace → Result Workspace
to_workspace r = do
  created_at ← decode_time r.created_at
  updated_at ← decode_time r.updated_at
  ok (record r { created_at = created_at; updated_at = updated_at })
