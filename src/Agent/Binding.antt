-- ===== src/Agent/Binding.antt =====
-- internal/core/agentauth/service.go: what a registration did that returned.
use open_delo.Prelude.{
  subst, ℕ, ◌+◌, String, ◌≡◌, refl, sym, ap, ◌∙◌, inl, inr, Bool, true, false, Option, none, some,
  List, length, arith, Bool-cases, contradiction, if◌then◌else◌, ◌==◌,
}
use open_delo.Prelude.Int.{ℤ}
use open_delo.Prelude.Text.{same_number}
use open_delo.Platform.AppError.{Result, ok, err, is_not_found, Result-cases}
use open_delo.Agent.Identity.{Device, Workspace, Agent}
use open_delo.Agent.Store.{Store, Run, lift, return, ◌>>=◌}
use open_delo.Agent.Agents.{create_agent, agent_by_binding, rebind_agent}
use open_delo.Agent.Registration.{Registration, Paths, normalize}
use open_delo.Agent.Register.{
  session_key_bytes, Crypto, Draws, Registered, drawn, generate_session_key, hash_session_key,
  device_after, resolve_device, workspace_after, resolve_workspace, new_agent, register_new,
  rebind_of, binding_of, agent_after, bind_agent, issue_key, register, session_ttl,
}
use open_delo.Agent.Inversion.{pair-eq, bind-ok}
use open_delo.Agent.Evolution.{
  create_device-agents, create_workspace-agents, set_workspace_fingerprint-agents,
}

-- Neither the devices nor the workspaces touch the table of agents.
abbrev Quiet : {A : Type 0} → Run A → Type 0
Quiet m = (s : Store) → (m s).0.agents ≡ s.agents

bind-Quiet :
    {A B : Type 0} (m : Run A) (next : A → Run B)
    → Quiet m
    → ((a : A) → Quiet (next a))
    → Quiet (m >>= next)
unfolding ◌>>=◌
bind-Quiet m next first later s = elim (Result-cases (m s).1) [
  | inl (a, e) ↦ rw (e, ◌>>=◌) (later a (m s).0 ∙ first s)
  | inr (code, e) ↦ rw (e, ◌>>=◌) (first s)
]

drawn-Quiet : {A : Type 0} (o : Option A) → Quiet (drawn o)
unfolding drawn lift
drawn-Quiet none s = refl
drawn-Quiet (some a) s = refl

drawn-store : {A : Type 0} (o : Option A) (s : Store) → (drawn o s).0 ≡ s
unfolding drawn lift
drawn-store none s = refl
drawn-store (some a) s = refl

if-Quiet : {A : Type 0} (b : Bool) (m n : Run A) → Quiet m → Quiet n → Quiet (if b then m else n)
if-Quiet true m n k l = k
if-Quiet false m n k l = l

device_after-Quiet :
    (draws : Draws) (q : Registration) (r : Result Device) → Quiet (device_after draws q r)
unfolding device_after lift return
device_after-Quiet draws q (ok device) = λ s. refl
device_after-Quiet draws q (err code) =
    if-Quiet (is_not_found code) _ _
      (bind-Quiet _ _ (drawn-Quiet draws.device_id) (λ id. create_device-agents _)) (λ s. refl)

workspace_after-Quiet :
    (draws : Draws) (q : Registration) (r : Result Workspace) → Quiet (workspace_after draws q r)
unfolding workspace_after lift return
workspace_after-Quiet draws q (ok w) =
    if-Quiet (w.project_fingerprint == q.project_fingerprint) _ _ (λ s. refl)
      (bind-Quiet _ _ (set_workspace_fingerprint-agents _ _ _) (λ changed s. refl))
workspace_after-Quiet draws q (err code) =
    if-Quiet (is_not_found code) _ _
      (bind-Quiet _ _ (drawn-Quiet draws.workspace_id)
        (λ id. bind-Quiet _ _ (create_workspace-agents _) (λ created s. refl)))
      (λ s. refl)

abbrev registered_of : Agent × Bool → String → Bool → Registered
registered_of bound key changed = record {
  agent = bound.0;
  session_key = key;
  is_rebind = bound.1;
  project_fingerprint_changed = changed;
}

module _ (draws : Draws) (q : Registration) (device workspace hash : String) (expires : ℕ) where
  -- The two ways to bind an agent: the one of the identity anew, or a new one.
  pub data Bound (s t : Store) (a : Agent) : Bool → Type 0 where
    again :
        (existing : Agent)
        → agent_by_binding (binding_of q device workspace) s ≡ ok existing
        → rebind_agent existing.id (rebind_of q hash expires draws.now) s ≡ (t, ok a)
        → Bound s t a true
    anew :
        (id : String)
        → create_agent (new_agent id q device workspace hash expires draws.now) s ≡ (t, ok a)
        → Bound s t a false

  agent_after-Bound :
      (r : Result Agent) (s : Store) (out : Agent × Bool)
      → agent_by_binding (binding_of q device workspace) s ≡ r
      → (agent_after draws q device workspace hash expires r s).1 ≡ ok out
      → Bound s (agent_after draws q device workspace hash expires r s).0 out.0 out.1
  unfolding agent_after register_new lift return
  agent_after-Bound (ok existing) s out found h =
      let b = bind-ok (rebind_agent existing.id (rebind_of q hash expires draws.now)) _ s out h in
      let same : out ≡ (b.first, true) = ground (arith, b.later_ok) in
      subst
        (λ o. Bound s (agent_after draws q device workspace hash expires (ok existing) s).0 o.0 o.1)
        (sym same) (again existing found (pair-eq _ _ _ (sym b.after) b.first_ok))
  agent_after-Bound (err code) s out found h = elim (Bool-cases (is_not_found code)) [
    | inl e ↦
        let b =
          bind-ok (register_new draws q device workspace hash expires) _ s out
            (rw (e, agent_after) at h) in
        let c = bind-ok (drawn draws.agent_id) _ s b.first b.first_ok in
        let same : out ≡ (b.first, false) = ground (arith, b.later_ok) in
        let here = drawn-store draws.agent_id s in
        subst
          (λ o. Bound s (agent_after draws q device workspace hash expires (err code) s).0 o.0 o.1)
          (sym same)
          (anew c.first (
            pair-eq _ _ _ (rw (e, agent_after) (sym (b.after ∙ (rw here at c.after))))
              (rw here at c.later_ok)))
    | inr e ↦ contradiction (ground (arith, e, h))
  ]

  pub bind_agent-Bound :
      (s : Store) (out : Agent × Bool)
      → (bind_agent draws q device workspace hash expires s).1 ≡ ok out
      → Bound s (bind_agent draws q device workspace hash expires s).0 out.0 out.1
  unfolding bind_agent
  bind_agent-Bound s out h = agent_after-Bound _ s out refl h

module _ (paths : Paths) (crypto : Crypto) (ttl : ℤ) (draws : Draws) where
  -- What a registration that returned went through.
  pub record Issued (raw : Registration) (s t : Store) (out : Registered) : Type 0 where
    pub normal : Registration
    pub checked : normalize paths raw ≡ ok normal
    pub device : String
    pub workspace : String
    pub before : Store
    pub agents : before.agents ≡ s.agents
    pub bytes : List ℕ
    pub drew : draws.entropy ≡ some bytes
    pub whole : length bytes ≡ session_key_bytes
    pub key : out.session_key ≡ crypto.encode bytes
    pub bound :
        Bound draws normal device workspace
          (hash_session_key crypto out.session_key)
          (draws.now + session_ttl ttl)
          before
          t
          out.agent
          out.is_rebind

  generate_session_key-ok :
      (entropy : Option (List ℕ)) (key : String)
      → generate_session_key crypto entropy ≡ ok key
      → (bytes : List ℕ) × (entropy ≡ some bytes)
        × (key ≡ crypto.encode bytes)
        × (length bytes ≡ session_key_bytes)
  unfolding generate_session_key
  generate_session_key-ok none key h = ground arith
  generate_session_key-ok (some bytes) key h =
      elim (Bool-cases (same_number (length bytes) session_key_bytes)) [
        | inl e ↦ (bytes, refl, ground (arith, h, e), ground (arith, e))
        | inr e ↦ contradiction (ground (arith, h, e))
      ]

  ok_same : {A : Type 0} (a b : A) → ok a ≡ ok b → a ≡ b
  ok_same a b h = ground arith

  -- The key is drawn, then the agent is bound to its hash.
  issue_key-Bound :
      (q : Registration) (device : Device) (resolved : Workspace × Bool) (s : Store)
      (out : Registered)
      → (issue_key paths crypto ttl draws q device resolved s).1 ≡ ok out
      → (bytes : List ℕ) × (draws.entropy ≡ some bytes)
        × (out.session_key ≡ crypto.encode bytes)
        × (length bytes ≡ session_key_bytes)
        × Bound draws q device.id resolved.0.id
            (hash_session_key crypto out.session_key)
            (draws.now + session_ttl ttl)
            s
            (issue_key paths crypto ttl draws q device resolved s).0
            out.agent
            out.is_rebind
  unfolding issue_key lift return
  issue_key-Bound q device resolved s out h =
      let d = bind-ok (lift (generate_session_key crypto draws.entropy)) _ s out h in
      let hash : String = hash_session_key crypto d.first in
      let run : Run (Agent × Bool) =
        bind_agent draws q device.id resolved.0.id hash (draws.now + session_ttl ttl) in
      let e = bind-ok run _ s out d.later_ok in
      let (bytes, drew, key, long) = generate_session_key-ok draws.entropy d.first d.first_ok in
      let whole : registered_of e.first d.first resolved.1 ≡ out = ok_same _ out e.later_ok in
      let bound =
        bind_agent-Bound draws q device.id resolved.0.id hash (draws.now + session_ttl ttl) s
          e.first e.first_ok in
      (
        bytes,
        drew,
        ap (λ o. o.session_key) (sym whole) ∙ key,
        long,
        subst
            (λ o.
              Bound draws q device.id resolved.0.id (hash_session_key crypto o.session_key)
                (draws.now + session_ttl ttl) s
                (issue_key paths crypto ttl draws q device resolved s).0 o.agent o.is_rebind)
            whole
            (subst
              (λ t.
                Bound draws q device.id resolved.0.id hash (draws.now + session_ttl ttl) s t
                  e.first.0 e.first.1)
              (sym (d.after ∙ e.after)) bound),
      )

  pub register-Issued :
      (raw : Registration) (s : Store) (out : Registered)
      → (register paths crypto ttl draws raw s).1 ≡ ok out
      → Issued raw s (register paths crypto ttl draws raw s).0 out
  unfolding register resolve_device resolve_workspace lift
  register-Issued raw s out h =
      let a = bind-ok (lift (normalize paths raw)) _ s out h in
      let b = bind-ok (resolve_device draws a.first) _ s out a.later_ok in
      let c =
        bind-ok (resolve_workspace draws a.first) _ (resolve_device draws a.first s).0 out
          b.later_ok in
      let before : Store = (resolve_workspace draws a.first (resolve_device draws a.first s).0).0 in
      let (bytes, drew, key, whole, bound) =
        issue_key-Bound a.first b.first c.first before out c.later_ok in
      record {
        normal = a.first;
        checked = a.first_ok;
        device = b.first.id;
        workspace = c.first.0.id;
        before = before;
        agents = workspace_after-Quiet draws a.first _ _ ∙ device_after-Quiet draws a.first _ s;
        bytes = bytes;
        drew = drew;
        key = key;
        whole = whole;
        bound =
            subst
              (λ t.
                Bound draws a.first b.first.id c.first.0.id
                  (hash_session_key crypto out.session_key) (draws.now + session_ttl ttl) before t
                  out.agent out.is_rebind)
              (sym (a.after ∙ b.after ∙ c.after)) bound;
      }
