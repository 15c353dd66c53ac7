-- ===== src/Examples/Agents.antt =====
-- Runs of internal/core/agentauth on concrete inputs.
use open_delo.Prelude.{
  ltb, length, contradiction, ℕ, ◌≡◌, ◌↔◌, refl, true, false, some, List, [], ◌∷◌, ◌==◌, ◌<◌, ◌+◌,
  arith,
}
use open_delo.Prelude.Int.{pos}
use open_delo.Platform.AppError.{ok, err, is_ok, internal}
use open_delo.Risk.Level.{TrustLevel, DeviceTrust}
use open_delo.Platform.AppError.{is_not_found}
use open_delo.Lease.Rows.{decode_time, year_10000, time_of, encode_time, text_of}
use open_delo.Agent.Identity.{AgentType, AgentStatus, Device, Workspace, Agent, valid_type}
use open_delo.Agent.Rows.{AgentRow, agent_of, decode_process_id, to_agent, to_device, to_workspace}
use open_delo.Agent.Tables.{row_of, sound, taken, others, put_row, replace, update_row}
use open_delo.Agent.Store.{
  Store, agent_schema, known_device_trust, known_status, known_trust_level, well_valued, ◌>>=◌,
  lift, return,
}
use open_delo.Agent.Devices.{device_by_fingerprint, read_device, workspace_by_path, read_workspace}
use open_delo.Agent.Agents.{
  agent_by_binding, newest, binds, change_agent, decoded, found, rebind_agent, rebound,
  set_agent_status, status_changed,
}
use open_delo.Agent.Registration.{
  Registration, Paths, normalize, check_identity, check_shown, absolute_path, filled,
}
use open_delo.Agent.Register.{
  session_key_bytes, Crypto, Draws, Registered, register, hash_session_key, resolve_device,
  device_after, resolve_workspace, workspace_after, generate_session_key, bind_agent, agent_after,
  binding_of, issue_key, rebind_of, session_ttl,
}
use open_delo.Agent.Service.{Presented, authenticate, disconnect}
use open_delo.Agent.Calls.{
  Call, register_call, authenticate_call, confirm_call, disconnect_call, run_all,
}
use open_delo.Agent.Invariant.{Sound}
use open_delo.Agent.Evolution.{Stays, run_all-Stays}
use open_delo.Agent.Session.{AdmissibleRow, authenticate_iff}
use open_delo.Agent.Refusal.{disconnect-refused}
use open_delo.Agent.Standing.{register-authenticates, register-refuses}

abbrev paths : Paths
paths = record { clean = λ path. path; is_abs = λ path. true }

-- The digest of a text is the text.
abbrev crypto : Crypto
crypto = record { encode = λ bytes. elim bytes [ [] ↦ "" | b ∷ bs ↦ "key-1" ]; digest = λ key. key }

abbrev device : Device
device = record {
  id = "device-1";
  fingerprint = "fp-device";
  name = "laptop";
  trust_status = DeviceTrust.untrusted;
  created_at = 0;
  updated_at = 0;
}

abbrev workspace : Workspace
workspace = record {
  id = "workspace-1";
  path = "/project";
  project_fingerprint = "fp-project";
  created_at = 0;
  updated_at = 0;
}

abbrev row : AgentRow
row = record {
  id = "agent-1";
  name = "claude";
  agent_type = AgentType.claude_code;
  version = some "2.1";
  executable_hash = "sha256:claude";
  executable_path = "/bin/claude";
  pid = pos 4321;
  parent_pid = pos 4320;
  os_user = "tester";
  device_id = "device-1";
  workspace_id = "workspace-1";
  started_at = 1;
  session_key_hash = "sha256:key-0";
  session_expires_at = 3_600_000;
  trust_level = TrustLevel.unverified;
  status = AgentStatus.active;
  last_seen_at = 1;
  created_at = 1;
  updated_at = 1;
}

abbrev store : Store
store = record { devices = device ∷ []; workspaces = workspace ∷ []; agents = row ∷ [] }

-- The same executable, started again.
abbrev restart : Registration
restart = record {
  name = "claude";
  agent_type = AgentType.claude_code;
  version = "2.1";
  executable_hash = "sha256:claude";
  executable_path = "/bin/claude";
  pid = pos 5000;
  parent_pid = pos 4320;
  os_user = "tester";
  device_fingerprint = "fp-device";
  device_name = "laptop";
  workspace_path = "/project";
  project_fingerprint = "fp-project";
  started_at = 2_000_000;
}

abbrev bytes : List ℕ
bytes =
    7 ∷ 7 ∷ 7 ∷ 7 ∷ 7 ∷ 7 ∷ 7 ∷ 7 ∷ 7 ∷ 7 ∷ 7 ∷ 7 ∷ 7 ∷ 7 ∷ 7 ∷ 7 ∷ 7 ∷ 7 ∷ 7 ∷ 7 ∷ 7 ∷ 7 ∷ 7 ∷ 7
    ∷ 7 ∷ 7 ∷ 7 ∷ 7 ∷ 7 ∷ 7 ∷ 7 ∷ 7 ∷ []

abbrev draws : Draws
draws = record {
  now = 5_000_000;
  entropy = some bytes;
  device_id = some "device-2";
  workspace_id = some "workspace-2";
  agent_id = some "agent-2";
}

abbrev restarted : Registered
restarted = record {
  agent = record {
    id = "agent-1";
    name = "claude";
    agent_type = AgentType.claude_code;
    version = "2.1";
    executable_hash = "sha256:claude";
    executable_path = "/bin/claude";
    pid = pos 5000;
    parent_pid = pos 4320;
    os_user = "tester";
    device_id = "device-1";
    workspace_id = "workspace-1";
    started_at = 2_000_000;
    session_key_hash = "sha256:key-1";
    session_expires_at = 3_600_005_000_000;
    trust_level = TrustLevel.unverified;
    status = AgentStatus.active;
    last_seen_at = 5_000_000;
    created_at = 1_000_000;
    updated_at = 5_000_000;
  };
  session_key = "key-1";
  is_rebind = true;
  project_fingerprint_changed = false;
}

abbrev nobody : Presented
nobody = record { pid = pos 0; executable_hash = "" }

abbrev process : Presented
process = record { pid = pos 5000; executable_hash = "sha256:claude" }

abbrev calls : List Call
calls =
    register_call draws restart
    ∷ confirm_call 6_000_000 "agent-1"
    ∷ authenticate_call 7_000_000 7_000_001 "key-1" nobody
    ∷ disconnect_call 8_000_000 "agent-1"
    ∷ []

store-Sound : Sound store
unfolding sound known_device_trust taken well_valued valid_type known_trust_level known_status
store-Sound = record { devices = refl; workspaces = refl; agents = refl }

restart_ok : (register paths crypto (pos 0) draws restart store).1 ≡ ok restarted
unfolding register ◌>>=◌ lift return normalize check_identity check_shown absolute_path
    resolve_device device_by_fingerprint resolve_workspace workspace_by_path to_workspace
    generate_session_key bind_agent agent_by_binding newest binds change_agent decoded found
    rebind_agent rebound read_device read_workspace valid_type agent_after binding_of device_after
    hash_session_key issue_key rebind_of session_ttl workspace_after filled agent_of
    decode_process_id to_agent to_device known_status known_trust_level well_valued others put_row
    replace row_of taken update_row decode_time time_of encode_time text_of is_not_found
restart_ok = refl

-- A process number that no row may be read with.
abbrev oversized : Registration
oversized = record restart { pid = pos 3_000_000_000 }

-- It is written, and from then on the identity cannot register, with whatever process number.
locked_out :
    let spoilt : Store = (register paths crypto (pos 0) draws oversized store).0 in
    (register paths crypto (pos 0) draws restart spoilt).1 ≡ err internal
unfolding register ◌>>=◌ lift return normalize check_identity check_shown absolute_path
    resolve_device device_by_fingerprint resolve_workspace workspace_by_path to_workspace
    generate_session_key bind_agent agent_by_binding newest binds change_agent decoded found
    rebind_agent rebound read_device read_workspace valid_type agent_after binding_of device_after
    hash_session_key issue_key rebind_of session_ttl workspace_after filled agent_of
    decode_process_id to_agent to_device known_status known_trust_level well_valued others put_row
    replace row_of taken update_row decode_time time_of encode_time text_of is_not_found
locked_out = refl

row_there : row_of agent_schema "agent-1" store.agents ≡ some row
unfolding row_of
row_there = refl

run_all-Stays_example :
    (r : AgentRow) × (row_of agent_schema "agent-1"
        (run_all paths crypto (pos 0) calls store).agents
      ≡ some r)
    × Stays row r
run_all-Stays_example = run_all-Stays paths crypto (pos 0) calls store "agent-1" row row_there

authenticate_iff_example :
    (is_ok (authenticate crypto 2_000_000 2_000_000 "key-0" nobody store).1 ≡ true) ↔ (
      (("key-0" == "") ≡ false)
      × (ltb (encode_time 2_000_000) year_10000 ≡ true)
      × (r : AgentRow) × AdmissibleRow (hash_session_key crypto "key-0") 2_000_000 nobody store r)
authenticate_iff_example =
    authenticate_iff crypto 2_000_000 2_000_000 "key-0" nobody store store-Sound

-- The text of no bytes is empty, and no other.
filled_key :
    (bytes : List ℕ) → length bytes ≡ session_key_bytes → (crypto.encode bytes == "") ≡ false
filled_key [] h = contradiction (ground (arith, h))
filled_key (b ∷ bs) h = refl

in_time : 4_000_000_000 < time_of (encode_time (draws.now + session_ttl (pos 0)))
unfolding time_of encode_time session_ttl
in_time = omega arith

early_clock : ltb (encode_time 4_000_000_001) year_10000 ≡ true
unfolding encode_time
early_clock = refl

register-authenticates_example :
    (agent : Agent) × ((authenticate crypto 4_000_000_000 4_000_000_001 "key-1" process
        (register paths crypto (pos 0) draws restart store).0).1
      ≡ ok agent)
    × (agent.id ≡ "agent-1")
register-authenticates_example =
    register-authenticates paths crypto (pos 0) draws restart store restarted filled_key store-Sound
      restart_ok 4_000_000_000 4_000_000_001 process in_time early_clock refl refl

abbrev later_calls : List Call
later_calls = confirm_call 6_000_000 "agent-1" ∷ disconnect_call 8_000_000 "agent-1" ∷ []

new_hash : (hash_session_key crypto "key-1" == "sha256:key-0") ≡ false
unfolding hash_session_key
new_hash = refl

old_hash : hash_session_key crypto "key-0" ≡ "sha256:key-0"
unfolding hash_session_key
old_hash = refl

register-refuses_example :
    is_ok
      (authenticate crypto 9_000_000 9_000_000 "key-0" nobody (
        run_all paths crypto
          (pos 0)
          later_calls
          (register paths crypto (pos 0) draws restart store).0)).1
    ≡ false
register-refuses_example =
    register-refuses paths crypto (pos 0) draws restart store restarted store-Sound restart_ok refl
      row row_there new_hash later_calls (tt, (tt, tt)) 9_000_000 9_000_000 "key-0" nobody old_hash

abbrev pub ended : Agent
ended = record restarted.agent {
  pid = pos 4321;
  started_at = 1_000_000;
  session_key_hash = "sha256:key-0";
  session_expires_at = 3_600_000_000_000;
  status = AgentStatus.disconnected;
  last_seen_at = 1_000_000;
}

ended_ok : (disconnect 5_000_000 "agent-1" store).1 ≡ ok ended
unfolding disconnect set_agent_status change_agent status_changed agent_of decode_process_id
    to_agent well_valued others put_row replace row_of taken update_row decode_time time_of
    encode_time text_of valid_type known_trust_level known_status
ended_ok = refl

-- The agent registers anew, with another key.
abbrev return_calls : List Call
return_calls = register_call draws restart ∷ confirm_call 6_000_000 "agent-1" ∷ []

disconnect-refused_example :
    is_ok
      (authenticate crypto 9_000_000 9_000_000 "key-0" nobody
        (run_all paths crypto (pos 0) return_calls (disconnect 5_000_000 "agent-1" store).0)).1
    ≡ false
disconnect-refused_example =
    disconnect-refused paths crypto (pos 0) store "agent-1" 5_000_000 ended store-Sound ended_ok
      return_calls (new_hash, (tt, tt)) 9_000_000 9_000_000 "key-0" nobody old_hash
