-- ===== src/Agent/Standing.antt =====
-- internal/core/agentauth/service.go: the session key that a registration hands out, and the one that
-- it takes away.
use open_delo.Prelude.{
  All, ltb, ℕ, ◌+◌, ◌<◌, String, ◌≡◌, refl, sym, ap, ◌∙◌, inl, inr, Bool, true, false, ◌||◌, some,
  find, arith, eq_iff, Bool-cases, Option-cases, contradiction, ◌==◌, List, [], ◌∷◌, ◌++◌, length,
  Memᴰ,
}
use open_delo.Prelude.Int.{ℤ, is_num, same_ℤ}
use open_delo.Prelude.Sorting.{is_later}
use open_delo.Platform.AppError.{ok, is_ok}
use open_delo.Lease.Rows.{encode_time, time_of, year_10000}
use open_delo.Agent.Identity.{Agent, is_active}
use open_delo.Agent.Rows.{AgentRow, agent_row, agent_of, to_agent}
use open_delo.Agent.Tables.{row_of, sound, replace}
use open_delo.Agent.Soundness.{
  update_row-Changed, find-replace, find-inserted, find-untaken, row_of-id,
}
use open_delo.Agent.Store.{Store, agent_schema}
use open_delo.Agent.Agents.{
  create_agent, rebind_agent, rebound, newest, binds, agent_by_binding, seen,
}
use open_delo.Agent.Registration.{Registration, Paths, normalize}
use open_delo.Agent.Register.{
  session_key_bytes, Crypto, Draws, Registered, hash_session_key, register, session_ttl, new_agent,
  rebind_of, binding_of,
}
use open_delo.Agent.Service.{Presented, authenticate}
use open_delo.Agent.Inversion.{decoded-ok, create_agent-ok, to_agent-ok, change_agent-ok}
use open_delo.Agent.Invariant.{Sound, register-Sound}
use open_delo.Agent.Calls.{Call, run_all}
use open_delo.Agent.Keeping.{FreshCall}
use open_delo.Agent.Binding.{Bound, again, anew, Issued, register-Issued}
use open_delo.Agent.Session.{row_of-mem, AdmissibleRow, authenticate-ok}
use open_delo.Agent.Refusal.{holds, live, Other, change_agent-ends, stays_refused}

pub newest-mem :
    (test : AgentRow → Bool) (rows : List AgentRow) (r : AgentRow)
    → newest test rows ≡ some r
    → Memᴰ r rows × (test r ≡ true)
unfolding newest
newest-mem test [] r h = ground arith
newest-mem test (s ∷ rows) r h = elim (Option-cases (newest test rows)) [
  | inl e ↦ elim (Bool-cases (test s)) [
    | inl t ↦ let same : s ≡ r = ground (arith, h, e, t) in (Memᴰ.head (sym same), rw (← same) t)
    | inr f ↦ contradiction (ground (arith, h, e, f))
  ]
  | inr (x, e) ↦
      let (m, t) = newest-mem test rows x e in
      let later : newest test (s ∷ rows) ≡ some r → Memᴰ r (s ∷ rows) × (test r ≡ true) = λ h.
        elim (Bool-cases (test s)) [
          | inl on ↦ elim (Bool-cases (is_later x.id s.id)) [
            | inl above ↦
                let same : x ≡ r = ground (arith, h, e, on, above) in
                (Memᴰ.tail (rw (← same) m), rw (← same) t)
            | inr below ↦
                let same : s ≡ r = ground (arith, h, e, on, below) in
                (Memᴰ.head (sym same), rw (← same) on)
          ]
          | inr off ↦
              let same : x ≡ r = ground (arith, h, e, off) in
              (Memᴰ.tail (rw (← same) m), rw (← same) t)
        ] in
      later h
]

-- The row of an agent that was just bound.
record Placed (q : Registration) (hash : String) (expires : ℕ) (t : Store) (a : Agent)
    : Type 0 where
  pub row : AgentRow
  pub there : find (λ r. r.session_key_hash == hash) t.agents ≡ some row
  pub read : to_agent row ≡ ok a
  pub pid : row.pid ≡ q.pid
  pub executable_hash : row.executable_hash ≡ q.executable_hash
  pub hash_of : row.session_key_hash ≡ hash
  pub session_expires_at : row.session_expires_at ≡ encode_time expires
  pub active : is_active row.status ≡ true

module _ (draws : Draws) (q : Registration) (device workspace hash : String) (expires : ℕ) where
  create_agent-Placed :
      (id : String) (s t : Store) (a : Agent)
      → create_agent (new_agent id q device workspace hash expires draws.now) s ≡ (t, ok a)
      → Placed q hash expires t a
  unfolding new_agent agent_row is_active
  create_agent-Placed id s t a h =
      let new : Agent = new_agent id q device workspace hash expires draws.now in
      let (rows, free, read) = create_agent-ok new s a (ap (λ x. x.1) h) in
      let now : t.agents ≡ s.agents ++ agent_row new ∷ [] = ap (λ x. x.0.agents) (sym h) ∙ rows in
      record {
        row = agent_row new;
        there = rw now (
            find-inserted agent_schema _ (agent_row new) s.agents (λ x same. ground (arith, same))
              free (ground (arith, eq_iff hash hash)));
        read = read;
        pid = refl;
        executable_hash = refl;
        hash_of = refl;
        session_expires_at = refl;
        active = refl;
      }

  rebind_agent-Placed :
      (existing : Agent) (s t : Store) (a : Agent)
      → sound agent_schema s.agents ≡ true
      → agent_by_binding (binding_of q device workspace) s ≡ ok existing
      → rebind_agent existing.id (rebind_of q hash expires draws.now) s ≡ (t, ok a)
      → Placed q hash expires t a
  unfolding rebind_agent agent_by_binding binds binding_of rebound rebind_of is_active agent_of
  rebind_agent-Placed existing s t a h there ran =
      let (row, newest_row, read_row) = decoded-ok _ existing there in
      let (m, bound) = newest-mem _ s.agents row newest_row in
      let (r', updated, read) = change_agent-ok existing.id _ s a (ap (λ x. x.1) ran) in
      let c = update_row-Changed agent_schema existing.id _ s.agents _ r' updated in
      let now : t.agents ≡ replace agent_schema existing.id r' s.agents =
        ap (λ x. x.0.agents) (sym ran) ∙ c.placed in
      let named : existing.id ≡ row.id = ap (λ x. x.id) (to_agent-ok row existing read_row) in
      let here : row_of agent_schema existing.id s.agents ≡ some row =
        rw named (row_of-mem s.agents row h m) in
      let same : c.before ≡ row = ground (arith, here, c.there) in
      let matched : row.executable_hash ≡ q.executable_hash =
        (eq_iff row.executable_hash q.executable_hash).0 (ground (arith, bound)) in
      let hashed : r'.session_key_hash ≡ hash = ap (λ x. x.session_key_hash) c.row in
      record {
        row = r';
        there = rw now (
            find-replace agent_schema existing.id _ r' c.before s.agents c.there
              (find-untaken agent_schema _ r' _ (λ x key. ground (arith, key, hashed)) c.free)
              (ground (arith, hashed, eq_iff r'.session_key_hash hash)));
        read = read;
        pid = ap (λ x. x.pid) c.row;
        executable_hash =
            ap (λ x. x.executable_hash) c.row ∙ ap (λ x. x.executable_hash) same ∙ matched;
        hash_of = hashed;
        session_expires_at = ap (λ x. x.session_expires_at) c.row;
        active = ap (λ x. is_active x.status) c.row;
      }

  Bound-Placed :
      (s t : Store) (a : Agent) (flag : Bool)
      → sound agent_schema s.agents ≡ true
      → Bound draws q device workspace hash expires s t a flag
      → Placed q hash expires t a
  Bound-Placed s t a _ h (again existing there ran) = rebind_agent-Placed existing s t a h there ran
  Bound-Placed s t a _ h (anew id ran) = create_agent-Placed id s t a ran

  -- The key that an agent had before its registration.
  Bound-ends :
      (old : String) (s t : Store) (a : Agent) (r : AgentRow) (flag : Bool)
      → sound agent_schema s.agents ≡ true
      → Bound draws q device workspace hash expires s t a flag
      → flag ≡ true
      → row_of agent_schema a.id s.agents ≡ some r
      → (r.session_key_hash == old) ≡ true
      → (hash == old) ≡ false
      → live old t ≡ false
  unfolding rebind_agent rebound rebind_of holds agent_of
  Bound-ends old s t a r _ h (again existing there ran) on found same new =
      let (r', updated, read) = change_agent-ok existing.id _ s a (ap (λ x. x.1) ran) in
      let c = update_row-Changed agent_schema existing.id _ s.agents _ r' updated in
      let named : a.id ≡ existing.id =
        ap (λ x. x.id) (to_agent-ok r' a read)
        ∙ ap (λ x. x.id) c.row
        ∙ row_of-id agent_schema existing.id s.agents c.before c.there in
      let there_too : row_of agent_schema existing.id s.agents ≡ some r = rw (← named) found in
      let ends : holds old (rebound (rebind_of q hash expires draws.now) r) ≡ false = rw new refl in
      rw (← (ap (λ x. x.0) ran))
        (change_agent-ends old existing.id _ s r a h there_too same ends (ap (λ x. x.1) ran))
  Bound-ends old s t a r _ h (anew id ran) on found same new = ground arith

normalize-keeps :
    (paths : Paths) (raw q : Registration)
    → normalize paths raw ≡ ok q
    → (q.pid ≡ raw.pid) × (q.executable_hash ≡ raw.executable_hash)
unfolding normalize
normalize-keeps paths raw q h = (ground (arith, h), ground (arith, h))

module _ (paths : Paths) (crypto : Crypto) (ttl : ℤ) (draws : Draws) (raw : Registration)
    (s : Store) (out : Registered) where
  register-Placed :
      (i : Issued paths crypto ttl draws raw s (register paths crypto ttl draws raw s).0 out)
      → Sound s
      → Placed i.normal
          (hash_session_key crypto out.session_key)
          (draws.now + session_ttl ttl)
          (register paths crypto ttl draws raw s).0
          out.agent
  register-Placed i sound_before =
      Bound-Placed draws i.normal i.device i.workspace _ _ i.before _ out.agent out.is_rebind
        (rw i.agents sound_before.agents) i.bound

  -- A registration that returned hands out a session key that works: on sound tables, until the
  -- session expires, in whole milliseconds, the key authenticates the caller that gives the registered
  -- process number and executable hash, or gives none, as the agent returned; the clock is before the year 10000, and the base64 of
  -- 32 bytes is not empty.
  pub register-authenticates :
      ((bytes : List ℕ) → length bytes ≡ session_key_bytes → (crypto.encode bytes == "") ≡ false)
      → Sound s
      → (register paths crypto ttl draws raw s).1 ≡ ok out
      → (now touched : ℕ) (presented : Presented)
      → now < time_of (encode_time (draws.now + session_ttl ttl))
      → ltb (encode_time touched) year_10000 ≡ true
      → (is_num 0 presented.pid || same_ℤ presented.pid raw.pid) ≡ true
      → (presented.executable_hash == "" || presented.executable_hash == raw.executable_hash) ≡ true
      → (agent : Agent) × ((authenticate crypto now touched out.session_key presented
            (register paths crypto ttl draws raw s).0).1
          ≡ ok agent)
        × (agent.id ≡ out.agent.id)
  unfolding agent_of seen
  register-authenticates writes sound_before registered now touched presented alive early process
        executable =
      let i = register-Issued paths crypto ttl draws raw s out registered in
      let p = register-Placed i sound_before in
      let sound_after : Sound (register paths crypto ttl draws raw s).0 =
        register-Sound paths crypto ttl draws raw s sound_before in
      let (pid, hash) = normalize-keeps paths raw i.normal i.checked in
      let same = to_agent-ok p.row out.agent p.read in
      let row : AdmissibleRow (hash_session_key crypto out.session_key) now presented _ p.row =
        record {
          there = p.there;
          readable = rw (← same) p.read;
          admissible = record {
            by_hash = rw p.hash_of ((eq_iff _ _).1 refl);
            active = p.active;
            valid = rw p.session_expires_at alive;
            process = rw (p.pid, pid) process;
            executable = rw (p.executable_hash, hash) executable;
          };
        } in
      let filled : (out.session_key == "") ≡ false = rw i.key (writes i.bytes i.whole) in
      (
        agent_of (seen touched p.row),
        authenticate-ok crypto now touched out.session_key presented _ p.row sound_after.agents
            filled row early,
        ap (λ x. x.id) (sym same),
      )

  -- A registration that rebinds an agent takes the agent's session key away: on sound tables, that key
  -- does not authenticate again, whatever calls follow, unless one of them draws it anew.
  pub register-refuses :
      Sound s
      → (register paths crypto ttl draws raw s).1 ≡ ok out
      → out.is_rebind ≡ true
      → (r : AgentRow) → row_of agent_schema out.agent.id s.agents ≡ some r
      → (hash_session_key crypto out.session_key == r.session_key_hash) ≡ false
      → (cs : List Call) → All (FreshCall crypto (Other r.session_key_hash)) cs
      → (now touched : ℕ) (key : String) (presented : Presented)
      → hash_session_key crypto key ≡ r.session_key_hash
      → is_ok
          (authenticate crypto now touched key presented
            (run_all paths crypto ttl cs (register paths crypto ttl draws raw s).0)).1
        ≡ false
  register-refuses sound_before registered rebind r found new cs fresh =
      let i = register-Issued paths crypto ttl draws raw s out registered in
      stays_refused paths crypto ttl (register paths crypto ttl draws raw s).0 r.session_key_hash cs
        (Bound-ends draws i.normal i.device i.workspace _ _ r.session_key_hash i.before _ out.agent
          r out.is_rebind (rw i.agents sound_before.agents) i.bound rebind (rw i.agents found)
          ((eq_iff _ _).1 refl) new)
        fresh
