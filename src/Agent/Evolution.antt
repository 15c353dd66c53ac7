-- ===== src/Agent/Evolution.antt =====
-- internal/core/agentauth on the table of agents: what any sequence of calls does to an agent.
use open_delo.Prelude.{
  ℕ, String, ◌≡◌, refl, ◌∙◌, ap, ◌⊎◌, inl, inr, some, List, arith, ◌==◌, Bool-cases, eq_iff, sym,
}
use open_delo.Prelude.Int.{ℤ}
use open_delo.Platform.AppError.{ok, Result-cases}
use open_delo.Risk.Level.{TrustLevel}
use open_delo.Agent.Identity.{Device, Workspace, Agent}
use open_delo.Agent.Rows.{AgentRow, agent_row, agent_of, to_agent}
use open_delo.Agent.Tables.{insert_row, update_row, row_of}
use open_delo.Agent.Soundness.{
  Changed, update_row-Changed, insert_row-ok, row_of-id, row_of-other, row_of-same, row_of-append,
}
use open_delo.Agent.Store.{Store, agent_schema}
use open_delo.Agent.Devices.{create_device, create_workspace, set_workspace_fingerprint}
use open_delo.Agent.Agents.{
  create_agent, change_agent, rebind_agent, set_agent_trust_level, set_agent_status, touch_agent,
  refers, rebound, trust_changed, status_changed, seen, agent_by_id,
}
use open_delo.Agent.Registration.{Paths}
use open_delo.Agent.Register.{Crypto}
use open_delo.Agent.Calls.{Call, run_all}
use open_delo.Agent.Keeping.{Kept, run_all-Keeps}
use open_delo.Agent.Invariant.{AnyKey, any_fresh}

-- What stays of an agent, and how its trust may change.
pub record Stays (r s : AgentRow) : Type 0 where
  pub name : s.name ≡ r.name
  pub agent_type : s.agent_type ≡ r.agent_type
  pub executable_hash : s.executable_hash ≡ r.executable_hash
  pub executable_path : s.executable_path ≡ r.executable_path
  pub os_user : s.os_user ≡ r.os_user
  pub device_id : s.device_id ≡ r.device_id
  pub workspace_id : s.workspace_id ≡ r.workspace_id
  pub created_at : s.created_at ≡ r.created_at
  pub trust :
      (s.trust_level ≡ r.trust_level)
      ⊎ ((r.trust_level ≡ TrustLevel.unverified) × (s.trust_level ≡ TrustLevel.known))

Stays-refl : (r : AgentRow) → Stays r r
Stays-refl r = record {
  name = refl;
  agent_type = refl;
  executable_hash = refl;
  executable_path = refl;
  os_user = refl;
  device_id = refl;
  workspace_id = refl;
  created_at = refl;
  trust = inl refl;
}

trust_chain :
    (a b c : TrustLevel)
    → (b ≡ a) ⊎ ((a ≡ TrustLevel.unverified) × (b ≡ TrustLevel.known))
    → (c ≡ b) ⊎ ((b ≡ TrustLevel.unverified) × (c ≡ TrustLevel.known))
    → (c ≡ a) ⊎ ((a ≡ TrustLevel.unverified) × (c ≡ TrustLevel.known))
trust_chain a b c (inl e) (inl f) = inl (f ∙ e)
trust_chain a b c (inl e) (inr (f, g)) = inr (sym e ∙ f, g)
trust_chain a b c (inr (e, e')) (inl f) = inr (e, f ∙ e')
trust_chain a b c (inr (e, e')) (inr (f, g)) = inr (e, g)

Stays-trans : (r s t : AgentRow) → Stays r s → Stays s t → Stays r t
Stays-trans r s t e f = record {
  name = f.name ∙ e.name;
  agent_type = f.agent_type ∙ e.agent_type;
  executable_hash = f.executable_hash ∙ e.executable_hash;
  executable_path = f.executable_path ∙ e.executable_path;
  os_user = f.os_user ∙ e.os_user;
  device_id = f.device_id ∙ e.device_id;
  workspace_id = f.workspace_id ∙ e.workspace_id;
  created_at = f.created_at ∙ e.created_at;
  trust = trust_chain r.trust_level s.trust_level t.trust_level e.trust f.trust;
}

-- The row of a key, before and after.
abbrev Still : Store → Store → Type 0
Still s t =
    (j : String) (r : AgentRow)
    → row_of agent_schema j s.agents ≡ some r
    → (r' : AgentRow) × (row_of agent_schema j t.agents ≡ some r') × Stays r r'

Still-refl : (s : Store) → Still s s
Still-refl s j r h = (r, h, Stays-refl r)

Still-trans : (s t u : Store) → Still s t → Still t u → Still s u
Still-trans s t u f g j r h =
    let (r', h', e) = f j r h in
    let (r'', h'', e') = g j r' h' in (r'', h'', Stays-trans r r' r'' e e')

same_agents : (s t : Store) → t.agents ≡ s.agents → Still s t
same_agents s t e j r h = (r, rw e h, Stays-refl r)

pub create_device-agents : (d : Device) (s : Store) → (create_device d s).0.agents ≡ s.agents
unfolding create_device
create_device-agents d s = ground arith

pub create_workspace-agents :
    (w : Workspace) (s : Store) → (create_workspace w s).0.agents ≡ s.agents
unfolding create_workspace
create_workspace-agents w s = ground arith

pub set_workspace_fingerprint-agents :
    (id fingerprint : String) (at : ℕ) (s : Store)
    → (set_workspace_fingerprint id fingerprint at s).0.agents ≡ s.agents
unfolding set_workspace_fingerprint
set_workspace_fingerprint-agents id fingerprint at s = ground arith

create_agent-Still : (a : Agent) (s : Store) → Still s (create_agent a s).0
unfolding create_agent
create_agent-Still a s j r h =
    elim (Result-cases (insert_row agent_schema (refers (agent_row a) s) (agent_row a) s.agents)) [
      | inl (rows, e) ↦
          let (same, _, _, _) = insert_row-ok agent_schema _ (agent_row a) s.agents rows e in
          rw (e, same, create_agent) (r, row_of-append agent_schema j s.agents _ r h, Stays-refl r)
      | inr (code, e) ↦ rw (e, create_agent) (r, h, Stays-refl r)
    ]

module _ (id : String) (change : AgentRow → AgentRow)
    (keeps : (r : AgentRow) → (change r).id ≡ r.id) where
  Changed-Still :
      (rows rows' : List AgentRow) (r' : AgentRow)
      → Changed agent_schema id change rows rows' r'
      → ((r : AgentRow) → row_of agent_schema id rows ≡ some r → Stays r (change r))
      → (j : String) (r : AgentRow) → row_of agent_schema j rows ≡ some r
      → (r'' : AgentRow) × (row_of agent_schema j rows' ≡ some r'') × Stays r r''
  Changed-Still rows rows' r' c moves j r h =
      let key : r'.id ≡ id =
        ap (λ x. x.id) c.row ∙ keeps c.before ∙ row_of-id agent_schema id rows c.before c.there in
      elim (Bool-cases (id == j)) [
        | inl here ↦
            let same : id ≡ j = (eq_iff id j).0 here in
            let here_too : row_of agent_schema j rows ≡ some c.before = rw (← same) c.there in
            let before : c.before ≡ r = ground (arith, here_too, h) in
            (
              r',
              rw (c.placed, ← same) (row_of-same agent_schema id r' c.before rows c.there key),
              rw (c.row, ← before) (moves c.before c.there),
            )
        | inr away ↦
            (r, rw c.placed (row_of-other agent_schema id j r' rows away key ∙ h), Stays-refl r)
      ]

  change_agent-Still :
      (s : Store)
      → ((r : AgentRow) → row_of agent_schema id s.agents ≡ some r → Stays r (change r))
      → Still s (change_agent id change s).0
  unfolding change_agent
  change_agent-Still s moves j r h =
      elim (Result-cases (update_row agent_schema id change s.agents)) [
        | inl ((rows, r'), e) ↦
            rw (e, change_agent)
              (Changed-Still s.agents rows r'
                (update_row-Changed agent_schema id change s.agents rows r' e) moves j r h)
        | inr (code, e) ↦ rw (e, change_agent) (r, h, Stays-refl r)
      ]

agent_by_id-trust :
    (id : String) (s : Store) (a : Agent) (r : AgentRow)
    → agent_by_id id s ≡ ok a
    → row_of agent_schema id s.agents ≡ some r
    → r.trust_level ≡ a.trust_level
unfolding agent_by_id to_agent agent_of
agent_by_id-trust id s a r h e = ground (arith, h, e)

-- The changes of the process, the key, the status and the times.
other-Stays :
    (r s : AgentRow)
    → s ≡ (record r {
      pid = s.pid;
      parent_pid = s.parent_pid;
      started_at = s.started_at;
      session_key_hash = s.session_key_hash;
      session_expires_at = s.session_expires_at;
      status = s.status;
      last_seen_at = s.last_seen_at;
      updated_at = s.updated_at;
    })
    → Stays r s
other-Stays r s e = record {
  name = ap (λ x. x.name) e;
  agent_type = ap (λ x. x.agent_type) e;
  executable_hash = ap (λ x. x.executable_hash) e;
  executable_path = ap (λ x. x.executable_path) e;
  os_user = ap (λ x. x.os_user) e;
  device_id = ap (λ x. x.device_id) e;
  workspace_id = ap (λ x. x.workspace_id) e;
  created_at = ap (λ x. x.created_at) e;
  trust = inl (ap (λ x. x.trust_level) e);
}

raised-Stays :
    (r : AgentRow) (now : ℕ)
    → r.trust_level ≡ TrustLevel.unverified
    → Stays r (trust_changed TrustLevel.known now r)
unfolding trust_changed
raised-Stays r now e = record {
  name = refl;
  agent_type = refl;
  executable_hash = refl;
  executable_path = refl;
  os_user = refl;
  device_id = refl;
  workspace_id = refl;
  created_at = refl;
  trust = inr (e, refl);
}

Still-Kept : Kept AnyKey Still
unfolding rebind_agent set_agent_trust_level set_agent_status touch_agent rebound trust_changed
    status_changed seen
Still-Kept = record {
  same = Still-refl;
  chain = Still-trans;
  device_created = λ d s. same_agents s (create_device d s).0 (create_device-agents d s);
  workspace_created = λ w s. same_agents s (create_workspace w s).0 (create_workspace-agents w s);
  workspace_changed = λ id f at s.
      same_agents s (set_workspace_fingerprint id f at s).0
        (set_workspace_fingerprint-agents id f at s);
  agent_created = λ a s fresh new. create_agent-Still a s;
  agent_rebound = λ id b s fresh.
      change_agent-Still id (rebound b) (λ r. refl) s (λ r there. other-Stays r _ refl);
  trust_raised = λ id now s a there level.
      change_agent-Still id (trust_changed TrustLevel.known now) (λ r. refl) s
        (λ r found. raised-Stays r now (agent_by_id-trust id s a r there found ∙ level));
  disconnected =
      λ id now s. change_agent-Still id _ (λ r. refl) s (λ r there. other-Stays r _ refl);
  touched = λ id now s. change_agent-Still id _ (λ r. refl) s (λ r there. other-Stays r _ refl);
}

-- Whatever calls follow, an agent stays in the table under its key, with its name, type, executable,
-- user, device, workspace and time of creation, and with its trust level, but that an unverified one may
-- have become known.
pub run_all-Stays :
    (paths : Paths) (crypto : Crypto) (ttl : ℤ) (cs : List Call) (s : Store) (j : String)
    (r : AgentRow)
    → row_of agent_schema j s.agents ≡ some r
    → (r' : AgentRow) × (row_of agent_schema j (run_all paths crypto ttl cs s).agents ≡ some r')
      × Stays r r'
run_all-Stays paths crypto ttl cs s =
    run_all-Keeps Still-Kept paths crypto ttl cs s (any_fresh crypto cs)
