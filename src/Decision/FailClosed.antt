-- ===== src/Decision/FailClosed.antt =====
-- internal/core/decision/failclosed.go, and the input of a decision (engine.go).
use open_delo.Prelude.{
  String, Bool, true, false, ◌&&◌, not, ◌==◌, Option, none, some, List, [], ◌∷◌, length, leb,
  if◌then◌else◌,
}
use open_delo.Risk.Level.{Level, low, medium, high, TrustLevel}
use open_delo.Risk.Engine.{Assessment}
use open_delo.Matcher.Identity.{MatchLevel}
use open_delo.Matcher.Matching.{MatchResult, is_nil}
use open_delo.Scope.Dimensions.{Scope, is_valid, filled}
use open_delo.Scope.Resolver.{ScopeResult}

pub data Mode : Type 0 where
  cautious balanced automatic : Mode
  other : String → Mode

pub data Blocker : Type 0 where
  agent_unidentified service_undetermined identity_ambiguity_unresolvable : Blocker
  scope_undeterminable capability_not_offered risk_unknown policy_engine_failure : Blocker
  gateway_offline credential_source_unavailable audit_write_failed : Blocker
  other : String → Blocker

pub record Grant : Type 0 where
  pub memory_id : String
  pub scope : Scope
  pub always_ask : Bool

pub record ActiveLease : Type 0 where
  pub lease_id : String
  pub scope : Scope

pub record Input : Type 0 where
  pub mode : Mode
  pub agent_id : String
  pub agent_trust : TrustLevel
  pub write : Bool
  pub matched : MatchResult
  pub scope : ScopeResult
  pub assessment : Assessment
  pub read_only_auto_allow : Bool
  pub new_service : Bool
  pub identity_changed : Bool
  pub new_identity : Bool
  pub new_resource : Bool
  pub learned : List Grant
  pub active : List ActiveLease
  pub blockers : List Blocker

unfoldable pub unnamed_level : MatchLevel → Bool
unnamed_level (MatchLevel.other s) = s == ""
unnamed_level _ = false

unfoldable pub resolvable_match : MatchResult → Bool
unfolding unnamed_level
resolvable_match r =
    if r.ambiguous
    then leb 2 (length r.candidates) && r.identity.id == "" && unnamed_level r.level
    else filled r.identity.id && not (unnamed_level r.level)

unfoldable pub valid_assessment : Assessment → Bool
valid_assessment a =
    if is_nil a.factors
    then false
    else elim a.level [ low ↦ true | medium ↦ true | high ↦ true | Level.other _ ↦ false ]

-- Whether a reported blocker is one of the ten.
unfoldable pub valid_blocker : Blocker → Bool
valid_blocker (Blocker.other _) = false
valid_blocker _ = true

-- The checks in the order of the table.
unfoldable pub self_checks : Input → List (Blocker × Bool)
unfolding resolvable_match valid_assessment
self_checks i =
    (agent_unidentified, i.agent_id == "")
    ∷ (service_undetermined, i.scope.scope.service == "")
    ∷ (scope_undeterminable, not (is_valid i.scope.scope))
    ∷ (identity_ambiguity_unresolvable, not (resolvable_match i.matched))
    ∷ (risk_unknown, not (valid_assessment i.assessment))
    ∷ []

unfoldable pub first_tripped : List (Blocker × Bool) → Option Blocker
first_tripped [] = none
first_tripped ((b, tripped) ∷ rest) =
    let later = first_tripped rest in if tripped then some b else later

unfoldable pub self_detected : Input → Option Blocker
self_detected i = first_tripped (self_checks i)
