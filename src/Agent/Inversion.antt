-- ===== src/Agent/Inversion.antt =====
-- internal/core/agentauth: what a run that returned a value did before.
use open_delo.Prelude.{
  false, [], ◌∷◌, ◌++◌, String, ◌≡◌, refl, inl, inr, Option, none, some, arith, contradiction,
}
use open_delo.Platform.AppError.{ok, Result-cases}
use open_delo.Agent.Identity.{Agent}
use open_delo.Agent.Rows.{AgentRow, agent_row, agent_of, to_agent}
use open_delo.Agent.Tables.{taken, insert_row, update_row}
use open_delo.Agent.Soundness.{insert_row-ok}
use open_delo.Agent.Store.{Store, Run, ◌>>=◌, agent_schema}
use open_delo.Agent.Agents.{found, decoded, create_agent, refers, change_agent}

pub pair-eq : {A B : Type 0} (p : A × B) (a : A) (b : B) → p.0 ≡ a → p.1 ≡ b → p ≡ (a, b)
pair-eq p a b e f = λ i. (e i, f i)

module _ {A B : Type 0} where
  -- Both steps returned.
  pub record Both (m : Run A) (next : A → Run B) (s : Store) (b : B) : Type 0 where
    pub first : A
    pub first_ok : (m s).1 ≡ ok first
    pub later_ok : (next first (m s).0).1 ≡ ok b
    pub after : (◌>>=◌ m next s).0 ≡ (next first (m s).0).0

  pub bind-ok :
      (m : Run A) (next : A → Run B) (s : Store) (b : B)
      → (◌>>=◌ m next s).1 ≡ ok b
      → Both m next s b
  unfolding ◌>>=◌
  bind-ok m next s b h = elim (Result-cases (m s).1) [
    | inl (a, e) ↦ record {
      first = a;
      first_ok = e;
      later_ok = rw (e, ◌>>=◌) at h;
      after = rw (e, ◌>>=◌) refl;
    }
    | inr (code, e) ↦ contradiction (ground (arith, h, e))
  ]

pub decoded-ok :
    (o : Option AgentRow) (a : Agent)
    → decoded (found o) ≡ ok a
    → (r : AgentRow) × (o ≡ some r) × (to_agent r ≡ ok a)
unfolding decoded found
decoded-ok none a h = ground arith
decoded-ok (some r) a h = (r, refl, h)

pub to_agent-ok : (r : AgentRow) (a : Agent) → to_agent r ≡ ok a → a ≡ agent_of r
unfolding to_agent
to_agent-ok r a h = ground arith

-- A statement that changed an agent.
pub change_agent-ok :
    (id : String) (change : AgentRow → AgentRow) (s : Store) (a : Agent)
    → (change_agent id change s).1 ≡ ok a
    → (r : AgentRow) × (update_row agent_schema id change s.agents
        ≡ ok ((change_agent id change s).0.agents, r))
      × (to_agent r ≡ ok a)
unfolding change_agent
change_agent-ok id change s a h = elim (Result-cases (update_row agent_schema id change s.agents)) [
  | inl ((rows, r), e) ↦ (r, rw (e, change_agent) refl, rw (e, change_agent) at h)
  | inr (code, e) ↦ contradiction (ground (arith, h, e))
]

-- A statement that added an agent.
pub create_agent-ok :
    (a : Agent) (s : Store) (out : Agent)
    → (create_agent a s).1 ≡ ok out
    → ((create_agent a s).0.agents ≡ s.agents ++ agent_row a ∷ [])
      × (taken agent_schema (agent_row a) s.agents ≡ false)
      × (to_agent (agent_row a) ≡ ok out)
unfolding create_agent
create_agent-ok a s out h =
    elim (Result-cases (insert_row agent_schema (refers (agent_row a) s) (agent_row a) s.agents)) [
      | inl (rows, e) ↦
          let (same, valued, free, there) =
            insert_row-ok agent_schema _ (agent_row a) s.agents rows e in
          (rw (e, create_agent) same, free, rw (e, create_agent) at h)
      | inr (code, e) ↦ contradiction (ground (arith, h, e))
    ]
