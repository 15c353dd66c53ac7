-- ===== src/Agent/Session.antt =====
-- internal/core/agentauth/service.go: when a session key authenticates.
use open_delo.Prelude.{
  ℕ, String, ltb, ◌≡◌, refl, ap, ◌↔◌, inl, inr, true, false, some, find, find-mem, any-mem, arith,
  eq_iff, contradiction, ◌==◌, List, [], ◌∷◌, Memᴰ,
}
use open_delo.Platform.AppError.{ok, is_ok, Result-cases}
use open_delo.Agent.Identity.{Agent}
use open_delo.Lease.Rows.{encode_time, year_10000, decode_time}
use open_delo.Agent.Rows.{AgentRow, agent_of, to_agent, decode_process_id}
use open_delo.Agent.Tables.{row_of, sound, taken, replace, update_row, put_row}
use open_delo.Agent.Soundness.{untaken-others, update_row-Changed}
use open_delo.Agent.Inversion.{change_agent-ok}
use open_delo.Agent.Store.{Store, lift, agent_schema, well_valued, ◌>>=◌}
use open_delo.Agent.Agents.{
  agent_by_session_key_hash, touch_agent, seen, change_agent, found, decoded,
}
use open_delo.Agent.Register.{Crypto, hash_session_key}
use open_delo.Agent.Service.{Presented, admit, unknown_key, admit_agent, authenticate}
use open_delo.Agent.Admission.{Admissible, authenticate-Admitted}
use open_delo.Agent.Invariant.{Sound, agent_schema-Lawful}

-- A row that a table holds is found by its key.
pub row_of-mem :
    (rows : List AgentRow) (r : AgentRow)
    → sound agent_schema rows ≡ true
    → Memᴰ r rows
    → row_of agent_schema r.id rows ≡ some r
unfolding sound row_of taken
row_of-mem [] r h m = elim m [ ]
row_of-mem (s ∷ rows) r h (Memᴰ.head e) = ground (arith, e, eq_iff s.id r.id)
row_of-mem (s ∷ rows) r h (Memᴰ.tail m) =
    let later = row_of-mem rows r (ground (arith, h)) m in
    ground (
      arith,
      h,
      later,
      any-mem (agent_schema.clashes s) rows r m,
      eq_iff s.id r.id,
      eq_iff r.id s.id,
    )

well_valued-mem :
    (rows : List AgentRow) (r : AgentRow)
    → sound agent_schema rows ≡ true
    → Memᴰ r rows
    → well_valued r ≡ true
unfolding sound
well_valued-mem [] r h m = elim m [ ]
well_valued-mem (s ∷ rows) r h (Memᴰ.head e) = rw e (ground (arith, h))
well_valued-mem (s ∷ rows) r h (Memᴰ.tail m) = well_valued-mem rows r (ground (arith, h)) m

seen-fits :
    (s : Store) (r : AgentRow) (at : ℕ)
    → sound agent_schema s.agents ≡ true
    → Memᴰ r s.agents
    → update_row agent_schema r.id (seen at) s.agents
      ≡ ok (replace agent_schema r.id (seen at r) s.agents, seen at r)
unfolding update_row put_row seen taken well_valued
seen-fits s r at h m =
    let there = row_of-mem s.agents r h m in
    let alone = untaken-others agent_schema agent_schema-Lawful r.id r s.agents h there in
    let valued = well_valued-mem s.agents r h m in rw (there, update_row, valued, alone) refl

-- What lets a row be read.
record Readable (r : AgentRow) : Type 0 where
  pub started_at : ltb r.started_at year_10000 ≡ true
  pub session_expires_at : ltb r.session_expires_at year_10000 ≡ true
  pub last_seen_at : ltb r.last_seen_at year_10000 ≡ true
  pub created_at : ltb r.created_at year_10000 ≡ true
  pub updated_at : ltb r.updated_at year_10000 ≡ true
  pub pid : decode_process_id r.pid ≡ ok r.pid
  pub parent_pid : decode_process_id r.parent_pid ≡ ok r.parent_pid

to_agent-Readable : (r : AgentRow) (a : Agent) → to_agent r ≡ ok a → Readable r
unfolding to_agent decode_time decode_process_id
to_agent-Readable r a h = record {
  started_at = ground (arith, h);
  session_expires_at = ground (arith, h);
  last_seen_at = ground (arith, h);
  created_at = ground (arith, h);
  updated_at = ground (arith, h);
  pid = ground (arith, h);
  parent_pid = ground (arith, h);
}

Readable-to_agent : (r : AgentRow) → Readable r → to_agent r ≡ ok (agent_of r)
unfolding to_agent decode_time
Readable-to_agent r k =
    rw
      (
        k.started_at, k.session_expires_at, k.last_seen_at, k.created_at, k.updated_at, k.pid,
        k.parent_pid,
      )
      refl

to_agent-seen :
    (r : AgentRow) (at : ℕ)
    → ltb (encode_time at) year_10000 ≡ true
    → to_agent r ≡ ok (agent_of r)
    → to_agent (seen at r) ≡ ok (agent_of (seen at r))
unfolding seen
to_agent-seen r at early read =
    let k = to_agent-Readable r (agent_of r) read in
    Readable-to_agent (seen at r) (record {
      started_at = k.started_at;
      session_expires_at = k.session_expires_at;
      last_seen_at = early;
      created_at = k.created_at;
      updated_at = early;
      pid = k.pid;
      parent_pid = k.parent_pid;
    })

-- A row that was touched is read, so that the time is one that can be read.
touch_agent-early :
    (id : String) (at : ℕ) (s : Store) (a : Agent)
    → (touch_agent id at s).1 ≡ ok a
    → ltb (encode_time at) year_10000 ≡ true
unfolding touch_agent seen
touch_agent-early id at s a h =
    let (r, updated, read) = change_agent-ok id (seen at) s a h in
    let c = update_row-Changed agent_schema id (seen at) s.agents _ r updated in
    let last : r.last_seen_at ≡ encode_time at = ap (λ x. x.last_seen_at) c.row in
    rw (← last) (to_agent-Readable r a read).last_seen_at

touch_agent-ok :
    (s : Store) (r : AgentRow) (at : ℕ)
    → sound agent_schema s.agents ≡ true
    → Memᴰ r s.agents
    → to_agent r ≡ ok (agent_of r)
    → ltb (encode_time at) year_10000 ≡ true
    → (touch_agent r.id at s).1 ≡ ok (agent_of (seen at r))
unfolding touch_agent change_agent
touch_agent-ok s r at h m read early =
    rw (seen-fits s r at h m, change_agent) (to_agent-seen r at early read)

admit-ok :
    (hash : String) (now : ℕ) (presented : Presented) (a : Agent)
    → Admissible hash now presented a
    → admit hash now presented a ≡ ok tt
unfolding admit
admit-ok hash now presented a h =
    ground (arith, h.by_hash, h.active, h.valid, h.process, h.executable)

-- The agent that holds the session key of the hash, and what lets it in.
pub record AdmissibleRow (hash : String) (now : ℕ) (presented : Presented) (s : Store)
    (row : AgentRow) : Type 0 where
  pub there : find (λ r. r.session_key_hash == hash) s.agents ≡ some row
  pub readable : to_agent row ≡ ok (agent_of row)
  pub admissible : Admissible hash now presented (agent_of row)

module _ (crypto : Crypto) (now touched : ℕ) (key : String) (presented : Presented)
    (s : Store) where
  pub authenticate-ok :
      (row : AgentRow)
      → sound agent_schema s.agents ≡ true
      → (key == "") ≡ false
      → AdmissibleRow (hash_session_key crypto key) now presented s row
      → ltb (encode_time touched) year_10000 ≡ true
      → (authenticate crypto now touched key presented s).1 ≡ ok (agent_of (seen touched row))
  unfolding authenticate admit_agent agent_by_session_key_hash decoded found unknown_key lift ◌>>=◌
      agent_of
  authenticate-ok row h filled a early =
      let m = (find-mem _ s.agents row a.there).0 in
      rw
        (
          filled,
          a.there,
          a.readable,
          admit-ok (hash_session_key crypto key) now presented (agent_of row) a.admissible,
        )
        (touch_agent-ok s row touched h m a.readable early)

  -- Where the tables are sound, a session key authenticates exactly if it is not empty and an agent
  -- has its hash, readable from its row, active and not expired at the first reading of the clock,
  -- with the process number and the executable hash of the caller where the caller gives them, and
  -- the second reading of the clock is before the year 10000, so that its text can be read.
  pub authenticate_iff :
      Sound s
      → (is_ok (authenticate crypto now touched key presented s).1 ≡ true) ↔ (
          ((key == "") ≡ false)
          × (ltb (encode_time touched) year_10000 ≡ true)
          × (row : AgentRow) × AdmissibleRow (hash_session_key crypto key) now presented s row)
  unfolding authenticate
  authenticate_iff h = (
    λ passed. elim (Result-cases (authenticate crypto now touched key presented s).1) [
      | inl (a, e) ↦
          let admitted = authenticate-Admitted crypto now touched key presented s a e in
          (
            ground (arith, e),
            touch_agent-early admitted.row.id touched s a (ap (λ x. x.1) admitted.seen_now),
            admitted.row,
            record {
              there = admitted.there;
              readable = admitted.readable;
              admissible = admitted.admissible;
            },
          )
      | inr (code, e) ↦ contradiction (ground (arith, passed, e))
    ],
    λ (filled, early, row, a). rw (authenticate-ok row h.agents filled a early) refl,
  )
