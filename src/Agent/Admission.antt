-- ===== src/Agent/Admission.antt =====
-- internal/core/agentauth/service.go: who authenticates.
use open_delo.Prelude.{
  ℕ, ◌<◌, String, ◌≡◌, sym, ap, ◌∙◌, inl, inr, true, ◌||◌, some, find, arith, Bool-cases,
  contradiction, ◌==◌,
}
use open_delo.Prelude.Int.{is_num, same_ℤ}
use open_delo.Platform.AppError.{Result, ok, err}
use open_delo.Agent.Identity.{Agent, is_active}
use open_delo.Agent.Rows.{AgentRow, agent_of, to_agent}
use open_delo.Agent.Store.{Store, lift}
use open_delo.Agent.Agents.{agent_by_session_key_hash, touch_agent}
use open_delo.Agent.Register.{Crypto, hash_session_key}
use open_delo.Agent.Service.{Presented, admit, unknown_key, admit_agent, authenticate}
use open_delo.Agent.Inversion.{pair-eq, bind-ok, decoded-ok, to_agent-ok}

unknown_key-ok : (r : Result Agent) (a : Agent) → unknown_key r ≡ ok a → r ≡ ok a
unfolding unknown_key
unknown_key-ok (err code) a h = ground arith
unknown_key-ok (ok b) a h = h

-- What the checks of an agent leave.
pub record Admissible (hash : String) (now : ℕ) (presented : Presented) (a : Agent) : Type 0 where
  pub by_hash : (a.session_key_hash == hash) ≡ true
  pub active : is_active a.status ≡ true
  pub valid : now < a.session_expires_at
  pub process : (is_num 0 presented.pid || same_ℤ presented.pid a.pid) ≡ true
  pub executable :
      (presented.executable_hash == "" || presented.executable_hash == a.executable_hash) ≡ true

admit-Admissible :
    (hash : String) (now : ℕ) (presented : Presented) (a : Agent) (u : Unit {0})
    → admit hash now presented a ≡ ok u
    → Admissible hash now presented a
unfolding admit
admit-Admissible hash now presented a u h = record {
  by_hash = ground (arith, h);
  active = ground (arith, h);
  valid = ground (arith, h);
  process = ground (arith, h);
  executable = ground (arith, h);
}

-- The agent of a key that authenticates.
pub record Admitted (hash : String) (now touched : ℕ) (presented : Presented) (s t : Store)
    (a : Agent) : Type 0 where
  pub row : AgentRow
  pub there : find (λ r. r.session_key_hash == hash) s.agents ≡ some row
  pub readable : to_agent row ≡ ok (agent_of row)
  pub admissible : Admissible hash now presented (agent_of row)
  pub seen_now : touch_agent row.id touched s ≡ (t, ok a)

admit_agent-ok :
    (hash : String) (now touched : ℕ) (presented : Presented) (r : Result Agent) (s : Store)
    (a : Agent)
    → (admit_agent hash now touched presented r s).1 ≡ ok a
    → (agent : Agent) × (r ≡ ok agent)
      × Admissible hash now presented agent
      × (touch_agent agent.id touched s ≡ ((admit_agent hash now touched presented r s).0, ok a))
unfolding admit_agent lift
admit_agent-ok hash now touched presented r s a h =
    let b = bind-ok (lift (unknown_key r)) _ s a h in
    let c = bind-ok (lift (admit hash now presented b.first)) _ s a b.later_ok in
    (
      b.first,
      unknown_key-ok r b.first b.first_ok,
      admit-Admissible hash now presented b.first c.first c.first_ok,
      pair-eq _ _ _ (sym (b.after ∙ c.after)) c.later_ok,
    )

pub authenticate-Admitted :
    (crypto : Crypto) (now touched : ℕ) (key : String) (presented : Presented) (s : Store)
    (a : Agent)
    → (authenticate crypto now touched key presented s).1 ≡ ok a
    → Admitted
        (hash_session_key crypto key)
        now
        touched
        presented
        s
        (authenticate crypto now touched key presented s).0
        a
unfolding authenticate agent_by_session_key_hash agent_of
authenticate-Admitted crypto now touched key presented s a h = elim (Bool-cases (key == "")) [
  | inl e ↦ contradiction (ground (arith, h, e))
  | inr e ↦
      let (agent, there, passed, after) =
        admit_agent-ok (hash_session_key crypto key) now touched presented _ s a
          (rw (e, authenticate) at h) in
      let (row, found, read) = decoded-ok _ agent there in
      let same = to_agent-ok row agent read in
      let named : agent.id ≡ row.id = ap (λ x. x.id) same in
      record {
        row = row;
        there = found;
        readable = rw (← same) read;
        admissible = rw (← same) passed;
        seen_now = rw (← named, e, authenticate) after;
      }
]
