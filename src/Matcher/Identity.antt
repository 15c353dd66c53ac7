-- ===== src/Matcher/Identity.antt =====
-- internal/core/matcher: identity.go, binding.go and match.go. A time is its number of nanoseconds
-- since the zero time; `other` is every text that is no named constant, the empty one included.
use open_delo.Prelude.{ℕ, String, Bool, false}

pub data Environment : Type 0 where
  production non_production : Environment
  other : String → Environment

pub data IdentityStatus : Type 0 where
  healthy needs_review : IdentityStatus
  other : String → IdentityStatus

pub record Identity : Type 0 where
  pub id : String
  pub service : String
  pub account_label : String
  pub environment : Environment
  pub is_default : Bool
  pub status : IdentityStatus
  pub credential_reference_id : String
  pub created_at : ℕ
  pub updated_at : ℕ

-- Go's zero value.
abbrev pub zero_identity : Identity
zero_identity = record {
  id = "";
  service = "";
  account_label = "";
  environment = Environment.other "";
  is_default = false;
  status = IdentityStatus.other "";
  credential_reference_id = "";
  created_at = 0;
  updated_at = 0;
}

pub data BindingKind : Type 0 where
  workspace resource : BindingKind
  other : String → BindingKind

pub record Binding : Type 0 where
  pub id : String
  pub kind : BindingKind
  pub service : String
  pub workspace_id : String
  pub resource_key : String
  pub identity_id : String
  pub created_at : ℕ

pub data MatchLevel : Type 0 where
  workspace_binding resource_binding trust_memory sole_identity manual_selection : MatchLevel
  other : String → MatchLevel
