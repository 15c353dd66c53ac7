-- ===== src/Agent/Store.antt =====
-- internal/store/repo/{agent,device,workspace}.go on the tables of internal/store/migrations: each
-- operation is one statement, and what it returns is read from the row.
use open_delo.Prelude.{Bool, true, false, ◌&&◌, ◌||◌, not, List, ◌==◌}
use open_delo.Prelude.Int.{is_pos, is_neg}
use open_delo.Platform.AppError.{Result, ok, err}
use open_delo.Risk.Level.{TrustLevel, DeviceTrust}
use open_delo.Agent.Identity.{AgentStatus, Device, Workspace, valid_type}
use open_delo.Agent.Rows.{AgentRow}
use open_delo.Agent.Tables.{Schema}

pub record Store : Type 0 where
  pub devices : List Device
  pub workspaces : List Workspace
  pub agents : List AgentRow

-- Code that reads and writes the store; what an error leaves written stays written.
abbrev pub Run {ℓ} : Type ℓ → Type ℓ
Run Value = Store → Store × Result Value

unfoldable pub return {ℓ} : {Value : Type ℓ} → Value → Run Value
return v store = (store, ok v)

unfoldable pub lift {ℓ} : {Value : Type ℓ} → Result Value → Run Value
lift r store = (store, r)

-- `if err != nil { return err }` between two calls
infixl 20 ◌>>=◌
unfoldable pub ◌>>=◌ {κ ℓ} :
    {Before : Type κ} {After : Type ℓ} → Run Before → (Before → Run After) → Run After
◌>>=◌ m next store =
    let (store', r) = m store in elim r [ err code ↦ (store', err code) | ok v ↦ next v store' ]

-- `status IN ('trusted', 'untrusted')`, and the lists of the other checks
unfoldable pub known_device_trust : DeviceTrust → Bool
known_device_trust (DeviceTrust.other _) = false
known_device_trust _ = true

unfoldable pub known_trust_level : TrustLevel → Bool
known_trust_level (TrustLevel.other _) = false
known_trust_level _ = true

unfoldable pub known_status : AgentStatus → Bool
known_status (AgentStatus.other _) = false
known_status _ = true

abbrev pub device_schema : Schema Device
device_schema = record {
  key = λ d. d.id;
  valued = λ d. known_device_trust d.trust_status;
  clashes = λ d e. e.id == d.id || e.fingerprint == d.fingerprint;
}

abbrev pub workspace_schema : Schema Workspace
workspace_schema = record {
  key = λ w. w.id;
  valued = λ w. true;
  clashes = λ w v. v.id == w.id || v.path == w.path;
}

unfoldable pub well_valued : AgentRow → Bool
unfolding valid_type known_trust_level known_status
well_valued r =
    valid_type r.agent_type
    && is_pos r.pid
    && not (is_neg r.parent_pid)
    && known_trust_level r.trust_level
    && known_status r.status

abbrev pub agent_schema : Schema AgentRow
agent_schema = record {
  key = λ r. r.id;
  valued = well_valued;
  clashes = λ r s. s.id == r.id || s.session_key_hash == r.session_key_hash;
}
