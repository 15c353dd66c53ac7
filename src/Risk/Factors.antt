-- ===== src/Risk/Factors.antt =====
-- internal/core/risk/factors.go: the input of a risk assessment, and its validation.
use open_delo.Prelude.{Bool, true, false, not}
use open_delo.Prelude.Int.{ℤ, is_neg}
use open_delo.Platform.AppError.{Result, ensure, ◌>>◌, invalid_request}
use open_delo.Risk.Level.{RiskLabel, TrustLevel, DeviceTrust}

pub record Factors : Type 0 where
  pub write : Bool
  pub production : Bool
  pub reversible : Bool
  pub resource_count : ℤ
  pub destructive : Bool
  pub permission_change : Bool
  pub secret_access : Bool
  pub billing : Bool
  pub external_communication : Bool
  pub first_seen : Bool
  pub beyond_history : Bool
  pub agent_trust : TrustLevel
  pub device_trust : DeviceTrust
  pub declared_label : RiskLabel

unfoldable pub valid_label : RiskLabel → Bool
valid_label (RiskLabel.other _) = false
valid_label _ = true

unfoldable pub valid_trust_level : TrustLevel → Bool
valid_trust_level (TrustLevel.other _) = false
valid_trust_level _ = true

unfoldable pub valid_device_trust : DeviceTrust → Bool
valid_device_trust (DeviceTrust.other _) = false
valid_device_trust _ = true

-- The four cases of the switch, in its order; each is an `invalid_request`.
unfoldable pub validate : Factors → Result (Unit {0})
unfolding valid_label valid_trust_level valid_device_trust
validate f = do
  ensure (valid_label f.declared_label) invalid_request
  ensure (valid_trust_level f.agent_trust) invalid_request
  ensure (valid_device_trust f.device_trust) invalid_request
  ensure (not (is_neg f.resource_count)) invalid_request
