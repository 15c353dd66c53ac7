-- ===== src/Risk/Level.antt =====
-- internal/core/risk/level.go, and the labels and trust values that risk reads. Each is a Go string
-- type with named constants; `other` is every text that is none of them, the empty one included.
use open_delo.Prelude.{ℕ, String, Bool, true, false}

pub data Level : Type 0 where
  low medium high : Level
  other : String → Level

-- engine.go `rank`: an unknown level is below all others.
unfoldable pub rank : Level → ℕ
rank Level.low = 1
rank Level.medium = 2
rank Level.high = 3
rank (Level.other _) = 0

-- internal/adapter/registry `RiskLabel`.
pub data RiskLabel : Type 0 where
  low medium high : RiskLabel
  other : String → RiskLabel

-- internal/core/agentauth/identity.go `TrustLevel`.
pub data TrustLevel : Type 0 where
  unverified known trusted : TrustLevel
  other : String → TrustLevel

-- internal/core/agentauth/identity.go `DeviceTrust`.
pub data DeviceTrust : Type 0 where
  trusted untrusted : DeviceTrust
  other : String → DeviceTrust

-- factors.go `levelOf`: the level of an adapter's label, empty where the label is unknown.
unfoldable pub level_of : RiskLabel → Level
level_of RiskLabel.low = Level.low
level_of RiskLabel.medium = Level.medium
level_of RiskLabel.high = Level.high
level_of (RiskLabel.other _) = Level.other ""

-- `level == LevelLow`, `LevelMedium`, `LevelHigh`
unfoldable pub is_low : Level → Bool
is_low Level.low = true
is_low _ = false

unfoldable pub is_medium : Level → Bool
is_medium Level.medium = true
is_medium _ = false

unfoldable pub is_high : Level → Bool
is_high Level.high = true
is_high _ = false

unfoldable pub is_unverified : TrustLevel → Bool
is_unverified TrustLevel.unverified = true
is_unverified _ = false

unfoldable pub is_untrusted : DeviceTrust → Bool
is_untrusted DeviceTrust.untrusted = true
is_untrusted _ = false
