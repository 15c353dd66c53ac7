-- ===== src/Agent/Service.antt =====
-- internal/core/agentauth/service.go: authentication, and what else happens to a registered agent.
use open_delo.Prelude.{ℕ, String, ◌||◌, ltb, if◌then◌else◌, ◌==◌}
use open_delo.Prelude.Int.{ℤ, is_num, same_ℤ}
use open_delo.Platform.AppError.{
  Result, ok, err, ensure, ◌>>◌, is_not_found, unauthenticated, session_expired,
  agent_identity_unverifiable, conflict, internal,
}
use open_delo.Risk.Level.{TrustLevel}
use open_delo.Agent.Identity.{AgentStatus, Agent, is_active}
use open_delo.Agent.Store.{Run, return, lift, ◌>>=◌}
use open_delo.Agent.Agents.{
  agent_by_id, agent_by_session_key_hash, set_agent_trust_level, set_agent_status, touch_agent,
}
use open_delo.Agent.Register.{Crypto, hash_session_key}

-- No process number is 0, no hash the empty text.
pub record Presented : Type 0 where
  pub pid : ℤ
  pub executable_hash : String

-- The checks of `Authenticate` on the agent of the key's hash, in the order of the code.
unfoldable pub admit : String → ℕ → Presented → Agent → Result (Unit {0})
unfolding is_active
admit hash now presented agent = do
  ensure (agent.session_key_hash == hash) unauthenticated
  ensure (is_active agent.status) unauthenticated
  ensure (ltb now agent.session_expires_at) session_expired
  ensure (is_num 0 presented.pid || same_ℤ presented.pid agent.pid) unauthenticated
  ensure (presented.executable_hash == "" || presented.executable_hash == agent.executable_hash)
      agent_identity_unverifiable

-- The error for a key that no agent has.
unfoldable pub unknown_key : Result Agent → Result Agent
unknown_key (err code) = err (if is_not_found code then unauthenticated else code)
unknown_key (ok agent) = ok agent

-- `Authenticate` from the agent that the hash finds on; the clock is read twice.
unfoldable pub admit_agent : String → ℕ → ℕ → Presented → Result Agent → Run Agent
unfolding unknown_key
admit_agent hash now touched presented looked_up = do
  agent ← lift (unknown_key looked_up)
  passed ← lift (admit hash now presented agent)
  touch_agent agent.id touched

unfoldable pub authenticate : Crypto → ℕ → ℕ → String → Presented → Run Agent
unfolding admit_agent
authenticate crypto now touched key presented store =
    let hash = hash_session_key crypto key in
    if key == ""
    then (store, err unauthenticated)
    else admit_agent hash now touched presented (agent_by_session_key_hash hash store) store

unfoldable pub raise_trust : String → ℕ → Agent → TrustLevel → Run Agent
raise_trust id now agent TrustLevel.known = return agent
raise_trust id now agent TrustLevel.unverified = set_agent_trust_level id TrustLevel.known now
raise_trust id now agent TrustLevel.trusted = lift (err conflict)
raise_trust id now agent (TrustLevel.other _) = lift (err internal)

unfoldable pub confirm_trust : ℕ → String → Run Agent
unfolding raise_trust
confirm_trust now id store = elim (agent_by_id id store) [
  | err code ↦ (store, err code)
  | ok agent ↦ raise_trust id now agent agent.trust_level store
]

unfoldable pub disconnect : ℕ → String → Run Agent
disconnect now id = set_agent_status id AgentStatus.disconnected now
