-- ===== src/Agent/Invariant.antt =====
-- internal/core/agentauth on the tables: what the checks and the unique indexes keep up.
use open_delo.Prelude.{
  All, Option, none, some, [], ◌∷◌, ℕ, String, ◌≡◌, refl, inl, inr, true, List, arith, ◌==◌, eq_iff,
}
use open_delo.Prelude.Int.{ℤ}
use open_delo.Platform.AppError.{Result-cases}
use open_delo.Agent.Identity.{Device, Workspace, Agent}
use open_delo.Agent.Rows.{AgentRow, agent_row, device_row, workspace_row}
use open_delo.Agent.Tables.{insert_row, update_row, sound}
use open_delo.Agent.Soundness.{Lawful, sound-insert_row, sound-update_row}
use open_delo.Agent.Store.{Store, device_schema, workspace_schema, agent_schema}
use open_delo.Agent.Devices.{
  create_device, create_workspace, fingerprint_changed, set_workspace_fingerprint,
}
use open_delo.Agent.Agents.{
  create_agent, change_agent, rebind_agent, set_agent_trust_level, set_agent_status, touch_agent,
  refers,
}
use open_delo.Agent.Registration.{Registration, Paths}
use open_delo.Agent.Register.{Crypto, Draws, register}
use open_delo.Agent.Calls.{
  Call, register_call, authenticate_call, confirm_call, disconnect_call, run,
}
use open_delo.Agent.Keeping.{Kept, FreshKey, FreshCall, run-Keeps}

-- No key, fingerprint, path or hash of a session key twice, and every column within its list.
pub record Sound (s : Store) : Type 0 where
  pub devices : sound device_schema s.devices ≡ true
  pub workspaces : sound workspace_schema s.workspaces ≡ true
  pub agents : sound agent_schema s.agents ≡ true

==-sym : (s t : String) → (s == t) ≡ (t == s)
==-sym s t = ground (arith, eq_iff s t, eq_iff t s)

device_schema-Lawful : Lawful device_schema
device_schema-Lawful = record {
  either = λ d e. rw (==-sym e.id d.id, ==-sym e.fingerprint d.fingerprint) refl;
  by_key = λ d e h. rw h refl;
}

workspace_schema-Lawful : Lawful workspace_schema
workspace_schema-Lawful = record {
  either = λ w v. rw (==-sym v.id w.id, ==-sym v.path w.path) refl;
  by_key = λ w v h. rw h refl;
}

pub agent_schema-Lawful : Lawful agent_schema
agent_schema-Lawful = record {
  either = λ r s. rw (==-sym s.id r.id, ==-sym s.session_key_hash r.session_key_hash) refl;
  by_key = λ r s h. rw h refl;
}

create_device-Sound : (d : Device) (s : Store) → Sound s → Sound (create_device d s).0
unfolding create_device
create_device-Sound d s h =
    elim (Result-cases (insert_row device_schema true (device_row d) s.devices)) [
      | inl (rows, e) ↦
          rw (e, create_device)
            (record {
              devices =
                  sound-insert_row device_schema device_schema-Lawful true (device_row d) s.devices
                    rows h.devices e;
              workspaces = h.workspaces;
              agents = h.agents;
            })
      | inr (code, e) ↦ rw (e, create_device) h
    ]

create_workspace-Sound : (w : Workspace) (s : Store) → Sound s → Sound (create_workspace w s).0
unfolding create_workspace
create_workspace-Sound w s h =
    elim (Result-cases (insert_row workspace_schema true (workspace_row w) s.workspaces)) [
      | inl (rows, e) ↦
          rw (e, create_workspace)
            (record {
              devices = h.devices;
              workspaces =
                  sound-insert_row workspace_schema workspace_schema-Lawful true (workspace_row w)
                    s.workspaces rows h.workspaces e;
              agents = h.agents;
            })
      | inr (code, e) ↦ rw (e, create_workspace) h
    ]

set_workspace_fingerprint-Sound :
    (id fingerprint : String) (at : ℕ) (s : Store)
    → Sound s
    → Sound (set_workspace_fingerprint id fingerprint at s).0
unfolding set_workspace_fingerprint
set_workspace_fingerprint-Sound id fingerprint at s h =
    elim (Result-cases
      (update_row workspace_schema id (fingerprint_changed fingerprint at) s.workspaces)) [
        | inl ((rows, r), e) ↦
            rw (e, set_workspace_fingerprint)
              (record {
                devices = h.devices;
                workspaces =
                    sound-update_row workspace_schema workspace_schema-Lawful id _ s.workspaces rows
                      r h.workspaces e;
                agents = h.agents;
              })
        | inr (code, e) ↦ rw (e, set_workspace_fingerprint) h
      ]

create_agent-Sound : (a : Agent) (s : Store) → Sound s → Sound (create_agent a s).0
unfolding create_agent
create_agent-Sound a s h =
    elim (Result-cases (insert_row agent_schema (refers (agent_row a) s) (agent_row a) s.agents)) [
      | inl (rows, e) ↦
          rw (e, create_agent)
            (record {
              devices = h.devices;
              workspaces = h.workspaces;
              agents =
                  sound-insert_row agent_schema agent_schema-Lawful _ (agent_row a) s.agents rows
                    h.agents e;
            })
      | inr (code, e) ↦ rw (e, create_agent) h
    ]

change_agent-Sound :
    (id : String) (change : AgentRow → AgentRow) (s : Store)
    → Sound s
    → Sound (change_agent id change s).0
unfolding change_agent
change_agent-Sound id change s h =
    elim (Result-cases (update_row agent_schema id change s.agents)) [
      | inl ((rows, r), e) ↦
          rw (e, change_agent)
            (record {
              devices = h.devices;
              workspaces = h.workspaces;
              agents =
                  sound-update_row agent_schema agent_schema-Lawful id change s.agents rows r
                    h.agents e;
            })
      | inr (code, e) ↦ rw (e, change_agent) h
    ]

abbrev pub AnyKey : String → Type 0
AnyKey hash = Unit

Sound-Kept : Kept AnyKey (λ s t. Sound s → Sound t)
unfolding rebind_agent set_agent_trust_level set_agent_status touch_agent
Sound-Kept = record {
  same = λ s h. h;
  chain = λ s t u f g h. g (f h);
  device_created = create_device-Sound;
  workspace_created = create_workspace-Sound;
  workspace_changed = set_workspace_fingerprint-Sound;
  agent_created = λ a s fresh new. create_agent-Sound a s;
  agent_rebound = λ id b s fresh. change_agent-Sound id _ s;
  trust_raised = λ id now s a there level. change_agent-Sound id _ s;
  disconnected = λ id now. change_agent-Sound id _;
  touched = λ id now. change_agent-Sound id _;
}

any_bytes : (crypto : Crypto) (entropy : Option (List ℕ)) → FreshKey crypto AnyKey entropy
any_bytes crypto none = tt
any_bytes crypto (some bytes) = tt

any_call : (crypto : Crypto) (c : Call) → FreshCall crypto AnyKey c
any_call crypto (register_call draws q) = any_bytes crypto draws.entropy
any_call crypto (authenticate_call now touched key presented) = tt
any_call crypto (confirm_call now id) = tt
any_call crypto (disconnect_call now id) = tt

pub any_fresh : (crypto : Crypto) (cs : List Call) → All (FreshCall crypto AnyKey) cs
any_fresh crypto [] = tt
any_fresh crypto (c ∷ cs) = (any_call crypto c, any_fresh crypto cs)

pub register-Sound :
    (paths : Paths) (crypto : Crypto) (ttl : ℤ) (draws : Draws) (q : Registration) (s : Store)
    → Sound s
    → Sound (register paths crypto ttl draws q s).0
unfolding run
register-Sound paths crypto ttl draws q s =
    run-Keeps Sound-Kept paths crypto ttl (register_call draws q) s (any_bytes crypto draws.entropy)
