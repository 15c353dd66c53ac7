-- ===== src/Agent/Keeping.antt =====
-- internal/core/agentauth/service.go: what each call keeps, from what its statements keep.
use open_delo.Prelude.{
  All, ℕ, String, ◌≡◌, refl, inl, inr, Bool, true, false, Option, none, some, List, [], ◌∷◌, length,
  Bool-cases, if◌then◌else◌, ◌==◌,
}
use open_delo.Prelude.Int.{ℤ}
use open_delo.Prelude.Text.{same_number}
use open_delo.Platform.AppError.{Result, ok, err, is_not_found, Result-cases}
use open_delo.Risk.Level.{TrustLevel}
use open_delo.Agent.Identity.{AgentStatus, Device, Workspace, Agent, Rebind}
use open_delo.Agent.Store.{Store, Run, return, lift, ◌>>=◌}
use open_delo.Agent.Devices.{create_device, create_workspace, set_workspace_fingerprint}
use open_delo.Agent.Agents.{
  create_agent, agent_by_id, rebind_agent, set_agent_trust_level, set_agent_status, touch_agent,
}
use open_delo.Agent.Registration.{Registration, Paths}
use open_delo.Agent.Register.{
  session_key_bytes, Crypto, Draws, drawn, generate_session_key, hash_session_key, device_after,
  resolve_device, workspace_after, resolve_workspace, new_agent, register_new, rebind_of,
  agent_after, bind_agent, issue_key, register,
}
use open_delo.Agent.Service.{
  Presented, admit_agent, authenticate, raise_trust, confirm_trust, disconnect,
}
use open_delo.Agent.Calls.{
  Call, register_call, authenticate_call, confirm_call, disconnect_call, run, run_all,
}

-- A relation of the stores before and after that every statement of the service keeps, where the
-- hashes of the new session keys have the property `Fresh`.
pub record Kept (Fresh : String → Type 0) (R : Store → Store → Type 0) : Type 0 where
  pub same : (s : Store) → R s s
  pub chain : (s t u : Store) → R s t → R t u → R s u
  pub device_created : (d : Device) (s : Store) → R s (create_device d s).0
  pub workspace_created : (w : Workspace) (s : Store) → R s (create_workspace w s).0
  pub workspace_changed :
      (id fingerprint : String) (at : ℕ) (s : Store)
      → R s (set_workspace_fingerprint id fingerprint at s).0
  pub agent_created :
      (a : Agent) (s : Store)
      → Fresh a.session_key_hash
      → a.trust_level ≡ TrustLevel.unverified
      → R s (create_agent a s).0
  pub agent_rebound :
      (id : String) (b : Rebind) (s : Store)
      → Fresh b.session_key_hash
      → R s (rebind_agent id b s).0
  pub trust_raised :
      (id : String) (now : ℕ) (s : Store) (a : Agent)
      → agent_by_id id s ≡ ok a
      → a.trust_level ≡ TrustLevel.unverified
      → R s (set_agent_trust_level id TrustLevel.known now s).0
  pub disconnected :
      (id : String) (now : ℕ) (s : Store)
      → R s (set_agent_status id AgentStatus.disconnected now s).0
  pub touched : (id : String) (now : ℕ) (s : Store) → R s (touch_agent id now s).0

-- Every new session key of the call has a hash with the property.
abbrev pub FreshKey : Crypto → (String → Type 0) → Option (List ℕ) → Type 0
FreshKey crypto Fresh none = Unit
FreshKey crypto Fresh (some bytes) = Fresh (hash_session_key crypto (crypto.encode bytes))

abbrev pub FreshCall : Crypto → (String → Type 0) → Call → Type 0
FreshCall crypto Fresh (register_call draws q) = FreshKey crypto Fresh draws.entropy
FreshCall crypto Fresh _ = Unit

module _ {Fresh : String → Type 0} {R : Store → Store → Type 0} (kept : Kept Fresh R) where
  -- A run whose every end is related to its start.
  abbrev pub Keeps {ℓ} : {A : Type ℓ} → Run A → Type 0
  Keeps m = (s : Store) → R s (m s).0

  bind-Keeps {κ ℓ} :
      {A : Type κ} {B : Type ℓ} (m : Run A) (next : A → Run B)
      → Keeps m
      → ((a : A) → Keeps (next a))
      → Keeps (m >>= next)
  unfolding ◌>>=◌
  bind-Keeps m next first later s = elim (Result-cases (m s).1) [
    | inl (a, e) ↦ rw (e, ◌>>=◌) (kept.chain s (m s).0 _ (first s) (later a (m s).0))
    | inr (code, e) ↦ rw (e, ◌>>=◌) (first s)
  ]

  lift-Keeps {ℓ} : {A : Type ℓ} (r : Result A) → Keeps (lift r)
  unfolding lift
  lift-Keeps r s = kept.same s

  return-Keeps {ℓ} : {A : Type ℓ} (a : A) → Keeps (return a)
  unfolding return
  return-Keeps a s = kept.same s

  drawn-Keeps {ℓ} : {A : Type ℓ} (o : Option A) → Keeps (drawn o)
  unfolding drawn
  drawn-Keeps none = lift-Keeps _
  drawn-Keeps (some a) = lift-Keeps _

  if-Keeps {ℓ} :
      {A : Type ℓ} (b : Bool) (m n : Run A) → Keeps m → Keeps n → Keeps (if b then m else n)
  if-Keeps true m n k l = k
  if-Keeps false m n k l = l

  device_after-Keeps :
      (draws : Draws) (q : Registration) (r : Result Device) → Keeps (device_after draws q r)
  unfolding device_after
  device_after-Keeps draws q (ok device) = return-Keeps device
  device_after-Keeps draws q (err code) =
      if-Keeps (is_not_found code) _ _
        (bind-Keeps _ _ (drawn-Keeps draws.device_id) (λ id. kept.device_created _))
        (lift-Keeps (err code))

  workspace_after-Keeps :
      (draws : Draws) (q : Registration) (r : Result Workspace) → Keeps (workspace_after draws q r)
  unfolding workspace_after
  workspace_after-Keeps draws q (ok w) =
      if-Keeps (w.project_fingerprint == q.project_fingerprint) _ _ (return-Keeps _)
        (bind-Keeps _ _ (kept.workspace_changed _ _ _) (λ changed. return-Keeps _))
  workspace_after-Keeps draws q (err code) =
      if-Keeps (is_not_found code) _ _
        (bind-Keeps _ _ (drawn-Keeps draws.workspace_id)
          (λ id. bind-Keeps _ _ (kept.workspace_created _) (λ created. return-Keeps _)))
        (lift-Keeps (err code))

  register_new-Keeps :
      (draws : Draws) (q : Registration) (device workspace hash : String) (expires : ℕ)
      → Fresh hash
      → Keeps (register_new draws q device workspace hash expires)
  unfolding register_new new_agent
  register_new-Keeps draws q device workspace hash expires fresh =
      bind-Keeps _ _ (drawn-Keeps draws.agent_id) (λ id s. kept.agent_created _ s fresh refl)

  agent_after-Keeps :
      (draws : Draws) (q : Registration) (device workspace hash : String) (expires : ℕ)
      (r : Result Agent)
      → Fresh hash
      → Keeps (agent_after draws q device workspace hash expires r)
  unfolding agent_after rebind_of
  agent_after-Keeps draws q device workspace hash expires (ok existing) fresh =
      bind-Keeps _ _ (λ s. kept.agent_rebound existing.id _ s fresh) (λ agent. return-Keeps _)
  agent_after-Keeps draws q device workspace hash expires (err code) fresh =
      if-Keeps (is_not_found code) _ _
        (bind-Keeps _ _ (register_new-Keeps draws q device workspace hash expires fresh)
          (λ agent. return-Keeps _))
        (lift-Keeps (err code))

  module _ (paths : Paths) (crypto : Crypto) (ttl : ℤ) where
    key-Keeps {ℓ} :
        {A : Type ℓ} (entropy : Option (List ℕ)) (next : String → Run A)
        → FreshKey crypto Fresh entropy
        → ((key : String) → Fresh (hash_session_key crypto key) → Keeps (next key))
        → Keeps (lift (generate_session_key crypto entropy) >>= next)
    unfolding generate_session_key lift ◌>>=◌
    key-Keeps none next fresh later s = kept.same s
    key-Keeps (some bytes) next fresh later s =
        elim (Bool-cases (same_number (length bytes) session_key_bytes)) [
          | inl e ↦ rw e (later (crypto.encode bytes) fresh s)
          | inr e ↦ rw e (kept.same s)
        ]

    issue_key-Keeps :
        (draws : Draws) (q : Registration) (device : Device) (resolved : Workspace × Bool)
        → FreshKey crypto Fresh draws.entropy
        → Keeps (issue_key paths crypto ttl draws q device resolved)
    unfolding issue_key bind_agent
    issue_key-Keeps draws q device resolved fresh = key-Keeps draws.entropy _ fresh λ key new.
        bind-Keeps _ _ (λ s. agent_after-Keeps draws q device.id resolved.0.id _ _ _ new s)
          (λ bound. return-Keeps _)

    register-Keeps :
        (draws : Draws) (q : Registration)
        → FreshKey crypto Fresh draws.entropy
        → Keeps (register paths crypto ttl draws q)
    unfolding register resolve_device resolve_workspace
    register-Keeps draws q fresh = bind-Keeps _ _ (lift-Keeps _) λ normal.
        bind-Keeps _ _ (λ s. device_after-Keeps draws normal _ s)
          λ device.
            bind-Keeps _ _ (λ s. workspace_after-Keeps draws normal _ s)
              λ resolved. issue_key-Keeps draws normal device resolved fresh

  raise_trust-Keeps :
      (now : ℕ) (id : String) (s : Store) (a : Agent) (level : TrustLevel)
      → agent_by_id id s ≡ ok a
      → a.trust_level ≡ level
      → R s (raise_trust id now a level s).0
  unfolding raise_trust
  raise_trust-Keeps now id s a TrustLevel.known e same = return-Keeps a s
  raise_trust-Keeps now id s a TrustLevel.unverified e same = kept.trust_raised id now s a e same
  raise_trust-Keeps now id s a TrustLevel.trusted e same = lift-Keeps _ s
  raise_trust-Keeps now id s a (TrustLevel.other _) e same = lift-Keeps _ s

  confirm_trust-Keeps : (now : ℕ) (id : String) → Keeps (confirm_trust now id)
  unfolding confirm_trust
  confirm_trust-Keeps now id s = elim (Result-cases (agent_by_id id s)) [
    | inl (a, e) ↦ rw (e, confirm_trust) (raise_trust-Keeps now id s a a.trust_level e refl)
    | inr (code, e) ↦ rw (e, confirm_trust) (kept.same s)
  ]

  authenticate-Keeps :
      (crypto : Crypto) (now touched : ℕ) (key : String) (presented : Presented)
      → Keeps (authenticate crypto now touched key presented)
  unfolding authenticate admit_agent
  authenticate-Keeps crypto now touched key presented s = elim (Bool-cases (key == "")) [
    | inl e ↦ rw e (kept.same s)
    | inr e ↦ rw e (
        bind-Keeps _ _ (lift-Keeps _)
          (λ agent. bind-Keeps _ _ (lift-Keeps _) (λ passed. kept.touched agent.id touched)) s)
  ]

  module _ (paths : Paths) (crypto : Crypto) (ttl : ℤ) where
    pub run-Keeps :
        (c : Call) (s : Store) → FreshCall crypto Fresh c → R s (run paths crypto ttl c s)
    unfolding run disconnect
    run-Keeps (register_call draws q) s fresh = register-Keeps paths crypto ttl draws q fresh s
    run-Keeps (authenticate_call now touched key presented) s fresh =
        authenticate-Keeps crypto now touched key presented s
    run-Keeps (confirm_call now id) s fresh = confirm_trust-Keeps now id s
    run-Keeps (disconnect_call now id) s fresh = kept.disconnected id now s

    pub run_all-Keeps :
        (cs : List Call) (s : Store)
        → All (FreshCall crypto Fresh) cs
        → R s (run_all paths crypto ttl cs s)
    unfolding run_all
    run_all-Keeps [] s fresh = kept.same s
    run_all-Keeps (c ∷ cs) s fresh =
        kept.chain s (run paths crypto ttl c s) _ (run-Keeps c s fresh.0)
          (run_all-Keeps cs (run paths crypto ttl c s) fresh.1)
