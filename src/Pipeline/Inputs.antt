-- ===== src/Pipeline/Inputs.antt =====
-- internal/core/pipeline/pipeline.go: what a request is judged by, and steps that may end in a
-- blocker.
use open_delo.Prelude.{String, Bool, Option, List}
use open_delo.Prelude.Int.{ℤ}
use open_delo.Platform.AppError.{Result, err, ok}
use open_delo.Risk.Level.{TrustLevel, DeviceTrust}
use open_delo.Risk.Engine.{Assessment}
use open_delo.Matcher.Identity.{Identity, Binding}
use open_delo.Matcher.Matching.{MatchResult}
use open_delo.Scope.Resolver.{ScopeResult}
use open_delo.Decision.FailClosed.{Blocker, Input}
use open_delo.Trust.Memories.{Memory}
use open_delo.Intent.Catalog.{Catalog}
use open_delo.Intent.Resolver as Intents
use open_delo.Pipeline.Requests.{CapabilityRequest}
use open_delo.Pipeline.Calls.{Run, return, ◌>>=◌}

pub record OperationFacts : Type 0 where
  pub destructive : Bool
  pub permission_change : Bool
  pub secret_access : Bool
  pub billing : Bool
  pub external_communication : Bool
  pub resource_count : ℤ

-- A nil catalog is `none`.
pub record Inputs : Type 0 where
  pub request : CapabilityRequest
  pub call : Intents.Call
  pub catalog : Option Catalog
  pub identities : List Identity
  pub workspace_bindings : List Binding
  pub resource_bindings : List Binding
  pub manual_selection : String
  pub agent_trust : TrustLevel
  pub device_trust : DeviceTrust
  pub facts : OperationFacts
  pub read_only_auto_allow : Bool
  pub new_service : Bool
  pub identity_changed : Bool
  pub new_identity : Bool
  pub new_resource : Bool
  pub blockers : List Blocker

pub record Resolved : Type 0 where
  pub matched : MatchResult
  pub scope : ScopeResult
  pub risk : Assessment
  pub input : Input
  pub grants : List Memory

-- A step that fails gives a blocker, which ends the resolution.
pub data Step {ℓ} (Value : Type ℓ) : Type ℓ where
  blocked : Blocker → Step Value
  passed : Value → Step Value

abbrev pub or_blocked {ℓ} : {Value : Type ℓ} → Blocker → Result Value → Step Value
or_blocked blocker (err code) = blocked blocker
or_blocked blocker (ok v) = passed v

-- `if blocker != "" { return out, blocker }`
unfoldable pub if_passed {κ ℓ} :
    {Before : Type κ} {After : Type ℓ}
    → (Before → Run (Step After))
    → Step Before
    → Run (Step After)
if_passed next (blocked blocker) = return (blocked blocker)
if_passed next (passed v) = next v

infixl 20 ◌>>?◌
unfoldable pub ◌>>?◌ {κ ℓ} :
    {Before : Type κ} {After : Type ℓ}
    → Run (Step Before)
    → (Before → Run (Step After))
    → Run (Step After)
m >>? next = m >>= if_passed next
