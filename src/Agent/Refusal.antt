-- ===== src/Agent/Refusal.antt =====
-- internal/core/agentauth on the table of agents: a session key that no longer counts.
use open_delo.Prelude.{
  All, ℕ, String, ◌≡◌, refl, ◌∙◌, ap, inl, inr, Bool, true, false, ◌&&◌, some, List, [], ◌∷◌, any,
  find, find-mem, any-mem, arith, ◌==◌, Bool-cases, eq_iff, contradiction,
}
use open_delo.Prelude.Int.{ℤ}
use open_delo.Platform.AppError.{ok, is_ok, Result-cases}
use open_delo.Risk.Level.{TrustLevel}
use open_delo.Agent.Identity.{Agent, is_active}
use open_delo.Agent.Rows.{AgentRow, agent_row, agent_of}
use open_delo.Agent.Tables.{insert_row, update_row, row_of, sound, taken, others}
use open_delo.Agent.Soundness.{
  update_row-Changed, insert_row-ok, any-replace, any-append, any-row_of, untaken-others,
  any-replaced,
}
use open_delo.Agent.Store.{Store, agent_schema}
use open_delo.Agent.Devices.{create_device, create_workspace, set_workspace_fingerprint}
use open_delo.Agent.Agents.{
  create_agent, change_agent, rebind_agent, set_agent_trust_level, set_agent_status, touch_agent,
  refers, rebound, trust_changed, status_changed, seen,
}
use open_delo.Agent.Registration.{Paths}
use open_delo.Agent.Register.{Crypto, hash_session_key}
use open_delo.Agent.Service.{Presented, authenticate, disconnect}
use open_delo.Agent.Admission.{authenticate-Admitted}
use open_delo.Agent.Inversion.{change_agent-ok, to_agent-ok}
use open_delo.Agent.Invariant.{Sound, agent_schema-Lawful}
use open_delo.Agent.Calls.{Call, run_all}
use open_delo.Agent.Keeping.{Kept, FreshCall, run_all-Keeps}
use open_delo.Agent.Evolution.{
  create_device-agents, create_workspace-agents, set_workspace_fingerprint-agents,
}

-- An active agent has the session key of the hash.
unfoldable pub holds : String → AgentRow → Bool
holds hash r = r.session_key_hash == hash && is_active r.status

unfoldable pub live : String → Store → Bool
unfolding holds
live hash s = any (holds hash) s.agents

-- The hash of another session key.
abbrev pub Other : String → String → Type 0
Other hash new = (new == hash) ≡ false

module _ (hash : String) where
  abbrev Dead : Store → Store → Type 0
  Dead s t = live hash s ≡ false → live hash t ≡ false

  same_agents : (s t : Store) → t.agents ≡ s.agents → Dead s t
  unfolding live
  same_agents s t e h = rw e h

  create_agent-Dead :
      (a : Agent) (s : Store) → Other hash a.session_key_hash → Dead s (create_agent a s).0
  unfolding create_agent live agent_row
  create_agent-Dead a s fresh h =
      elim (Result-cases
        (insert_row agent_schema (refers (agent_row a) s) (agent_row a) s.agents)) [
          | inl (rows, e) ↦
              let (same, _, _, _) = insert_row-ok agent_schema _ (agent_row a) s.agents rows e in
              let apart : holds hash (agent_row a) ≡ false = ground (arith, fresh) in
              rw (e, same, create_agent)
                (any-append agent_schema (holds hash) (agent_row a) s.agents h apart)
          | inr (code, e) ↦ rw (e, create_agent) h
        ]

  change_agent-Dead :
      (id : String) (change : AgentRow → AgentRow) (s : Store)
      → ((r : AgentRow) → holds hash r ≡ false → holds hash (change r) ≡ false)
      → Dead s (change_agent id change s).0
  unfolding change_agent live
  change_agent-Dead id change s stays h =
      elim (Result-cases (update_row agent_schema id change s.agents)) [
        | inl ((rows, r'), e) ↦
            let c = update_row-Changed agent_schema id change s.agents rows r' e in
            let before = any-row_of agent_schema (holds hash) id c.before s.agents h c.there in
            let after : holds hash r' ≡ false = rw c.row (stays c.before before) in
            rw (e, c.placed, change_agent)
              (any-replace agent_schema (holds hash) id r' s.agents h after)
        | inr (code, e) ↦ rw (e, change_agent) h
      ]

  Dead-Kept : Kept (Other hash) Dead
  unfolding rebind_agent set_agent_trust_level set_agent_status touch_agent rebound trust_changed
      status_changed seen holds is_active
  Dead-Kept = record {
    same = λ s h. h;
    chain = λ s t u f g h. g (f h);
    device_created = λ d s. same_agents s (create_device d s).0 (create_device-agents d s);
    workspace_created = λ w s. same_agents s (create_workspace w s).0 (create_workspace-agents w s);
    workspace_changed = λ id f at s.
        same_agents s (set_workspace_fingerprint id f at s).0
          (set_workspace_fingerprint-agents id f at s);
    agent_created = λ a s fresh new. create_agent-Dead a s fresh;
    agent_rebound =
        λ id b s fresh. change_agent-Dead id (rebound b) s (λ r h. ground (arith, fresh));
    trust_raised = λ id now s a there level.
        change_agent-Dead id (trust_changed TrustLevel.known now) s (λ r h. h);
    disconnected = λ id now s. change_agent-Dead id _ s (λ r h. ground arith);
    touched = λ id now s. change_agent-Dead id (seen now) s (λ r h. h);
  }

  pub find-Dead :
      (rows : List AgentRow) (r : AgentRow)
      → any (holds hash) rows ≡ false
      → find (λ x. x.session_key_hash == hash) rows ≡ some r
      → is_active r.status ≡ false
  unfolding holds
  find-Dead rows r h e =
      let (m, same) = find-mem (λ x. x.session_key_hash == hash) rows r e in
      elim (Bool-cases (is_active r.status)) [
        | inl on ↦
            contradiction
              (ground (arith, any-mem (holds hash) rows r m (ground (arith, same, on)), h))
        | inr off ↦ off
      ]

-- Where no active agent has the key, it does not authenticate.
pub authenticate-Dead :
    (crypto : Crypto) (now touched : ℕ) (key : String) (presented : Presented) (s : Store)
    → live (hash_session_key crypto key) s ≡ false
    → is_ok (authenticate crypto now touched key presented s).1 ≡ false
unfolding live agent_of
authenticate-Dead crypto now touched key presented s dead =
    elim (Result-cases (authenticate crypto now touched key presented s).1) [
      | inl (agent, e) ↦
          let a = authenticate-Admitted crypto now touched key presented s agent e in
          contradiction (
            ground (
              arith,
              find-Dead (hash_session_key crypto key) s.agents a.row dead a.there,
              a.admissible.active,
            ))
      | inr (code, e) ↦ rw e refl
    ]

any_only :
    (p q : AgentRow → Bool) (rows : List AgentRow)
    → ((r : AgentRow) → q r ≡ true → p r ≡ true)
    → any p rows ≡ false
    → any q rows ≡ false
any_only p q [] only h = refl
any_only p q (r ∷ rs) only h = ground (arith, any_only p q rs only, only r)

-- A change that takes the key of a hash from the agent that has it, or ends that agent's session.
pub change_agent-ends :
    (hash id : String) (change : AgentRow → AgentRow) (s : Store) (r : AgentRow) (a : Agent)
    → sound agent_schema s.agents ≡ true
    → row_of agent_schema id s.agents ≡ some r
    → (r.session_key_hash == hash) ≡ true
    → holds hash (change r) ≡ false
    → (change_agent id change s).1 ≡ ok a
    → live hash (change_agent id change s).0 ≡ false
unfolding live taken holds
change_agent-ends hash id change s r a h there same ends e =
    let (r', updated, read) = change_agent-ok id change s a e in
    let c = update_row-Changed agent_schema id change s.agents _ r' updated in
    let before : c.before ≡ r = ground (arith, there, c.there) in
    let new : holds hash r' ≡ false = rw (c.row, before) ends in
    let nobody = untaken-others agent_schema agent_schema-Lawful id r s.agents h there in
    let away : any (holds hash) (others agent_schema id s.agents) ≡ false =
      any_only _ (holds hash) _
        (λ x on. ground (
          arith,
          same,
          on,
          eq_iff r.session_key_hash hash,
          eq_iff x.session_key_hash hash,
          eq_iff x.session_key_hash r.session_key_hash,
        ))
        nobody in
    rw c.placed
      (any-replaced agent_schema agent_schema-Lawful (holds hash) id r' s.agents h away new)

module _ (paths : Paths) (crypto : Crypto) (ttl : ℤ) where
  -- A key without an active agent stays refused.
  pub stays_refused :
      (s : Store) (hash : String) (cs : List Call)
      → live hash s ≡ false
      → All (FreshCall crypto (Other hash)) cs
      → (now touched : ℕ) (key : String) (presented : Presented)
      → hash_session_key crypto key ≡ hash
      → is_ok (authenticate crypto now touched key presented (run_all paths crypto ttl cs s)).1
        ≡ false
  stays_refused s hash cs dead fresh now touched key presented same =
      authenticate-Dead crypto now touched key presented (run_all paths crypto ttl cs s)
        (rw same (run_all-Keeps (Dead-Kept hash) paths crypto ttl cs s fresh dead))

  -- Once an agent was disconnected, the session key that it had does not authenticate again, whatever
  -- calls follow, the agent's next registrations included, as long as none of them draws that key
  -- anew; the tables are sound before.
  pub disconnect-refused :
      (s : Store) (id : String) (at : ℕ) (a : Agent)
      → Sound s
      → (disconnect at id s).1 ≡ ok a
      → (cs : List Call) → All (FreshCall crypto (Other a.session_key_hash)) cs
      → (now touched : ℕ) (key : String) (presented : Presented)
      → hash_session_key crypto key ≡ a.session_key_hash
      → is_ok
          (authenticate crypto now touched key presented
            (run_all paths crypto ttl cs (disconnect at id s).0)).1
        ≡ false
  unfolding disconnect set_agent_status status_changed holds is_active agent_of
  disconnect-refused s id at a sound e cs fresh =
      let (r', updated, read) = change_agent-ok id _ s a e in
      let c = update_row-Changed agent_schema id _ s.agents _ r' updated in
      let hash : a.session_key_hash ≡ c.before.session_key_hash =
        ap (λ x. x.session_key_hash) (to_agent-ok r' a read) ∙ ap (λ x. x.session_key_hash) c.row in
      let same : (c.before.session_key_hash == a.session_key_hash) ≡ true =
        ground (arith, hash, eq_iff c.before.session_key_hash a.session_key_hash) in
      stays_refused (disconnect at id s).0 a.session_key_hash cs
        (change_agent-ends a.session_key_hash id _ s c.before a sound.agents c.there same
          (ground arith) e)
        fresh
