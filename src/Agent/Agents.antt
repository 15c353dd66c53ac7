-- ===== src/Agent/Agents.antt =====
-- internal/store/repo/agent.go on the table of agents: each operation is one statement, and what it
-- returns is read from the row.
use open_delo.Prelude.{
  ℕ, String, Bool, ◌&&◌, Option, none, some, List, [], ◌∷◌, any, find, if◌then◌else◌, ◌==◌,
}
use open_delo.Prelude.Sorting.{is_later}
use open_delo.Platform.AppError.{Result, ok, err, not_found}
use open_delo.Risk.Level.{TrustLevel}
use open_delo.Lease.Rows.{encode_time}
use open_delo.Agent.Identity.{AgentStatus, Agent, Binding, Rebind}
use open_delo.Agent.Rows.{AgentRow, agent_row, to_agent}
use open_delo.Agent.Tables.{row_of, insert_row, update_row}
use open_delo.Agent.Store.{Store, Run, agent_schema}

-- `:one`: no row is `not_found`.
unfoldable pub found {ℓ} : {Row : Type ℓ} → Option Row → Result Row
found none = err not_found
found (some r) = ok r

unfoldable pub decoded : Result AgentRow → Result Agent
decoded (err code) = err code
decoded (ok r) = to_agent r

-- The device and the workspace of a new row must be there.
unfoldable pub refers : AgentRow → Store → Bool
refers r store =
    any (λ d. d.id == r.device_id) store.devices
    && any (λ w. w.id == r.workspace_id) store.workspaces

unfoldable pub create_agent : Agent → Run Agent
unfolding refers
create_agent a store =
    let row = agent_row a in
    elim (insert_row agent_schema (refers row store) row store.agents) [
      | err code ↦ (store, err code)
      | ok rows ↦ (record store { agents = rows }, to_agent row)
    ]

unfoldable pub agent_by_id : String → Store → Result Agent
unfolding found decoded
agent_by_id id store = decoded (found (row_of agent_schema id store.agents))

unfoldable pub agent_by_session_key_hash : String → Store → Result Agent
unfolding found decoded
agent_by_session_key_hash hash store =
    decoded (found (find (λ r. r.session_key_hash == hash) store.agents))

unfoldable pub binds : Binding → AgentRow → Bool
binds b r =
    r.device_id == b.device_id
    && r.workspace_id == b.workspace_id
    && r.executable_path == b.executable_path
    && r.os_user == b.os_user
    && r.executable_hash == b.executable_hash

-- `ORDER BY id DESC LIMIT 1`
unfoldable pub newest : (AgentRow → Bool) → List AgentRow → Option AgentRow
newest test [] = none
newest test (r ∷ rs) =
    let rest = newest test rs in
    if test r
    then (elim rest [ none ↦ some r | some s ↦ if is_later s.id r.id then some s else some r ])
    else rest

unfoldable pub agent_by_binding : Binding → Store → Result Agent
unfolding found decoded binds
agent_by_binding b store = decoded (found (newest (binds b) store.agents))

unfoldable pub change_agent : String → (AgentRow → AgentRow) → Run Agent
change_agent id change store = elim (update_row agent_schema id change store.agents) [
  | err code ↦ (store, err code)
  | ok (rows, r) ↦ (record store { agents = rows }, to_agent r)
]

unfoldable pub rebound : Rebind → AgentRow → AgentRow
unfolding encode_time
rebound b r = record r {
  pid = b.pid;
  parent_pid = b.parent_pid;
  started_at = encode_time b.started_at;
  session_key_hash = b.session_key_hash;
  session_expires_at = encode_time b.session_expires_at;
  status = AgentStatus.active;
  last_seen_at = encode_time b.at;
  updated_at = encode_time b.at;
}

unfoldable pub rebind_agent : String → Rebind → Run Agent
unfolding change_agent
rebind_agent id b = change_agent id (rebound b)

unfoldable pub trust_changed : TrustLevel → ℕ → AgentRow → AgentRow
unfolding encode_time
trust_changed level at r = record r { trust_level = level; updated_at = encode_time at }

unfoldable pub set_agent_trust_level : String → TrustLevel → ℕ → Run Agent
unfolding change_agent
set_agent_trust_level id level at = change_agent id (trust_changed level at)

unfoldable pub status_changed : AgentStatus → ℕ → AgentRow → AgentRow
unfolding encode_time
status_changed status at r = record r { status = status; updated_at = encode_time at }

unfoldable pub set_agent_status : String → AgentStatus → ℕ → Run Agent
unfolding change_agent
set_agent_status id status at = change_agent id (status_changed status at)

unfoldable pub seen : ℕ → AgentRow → AgentRow
unfolding encode_time
seen at r = record r { last_seen_at = encode_time at; updated_at = encode_time at }

unfoldable pub touch_agent : String → ℕ → Run Agent
unfolding change_agent
touch_agent id at = change_agent id (seen at)
