-- ===== src/Scope/Resolver.antt =====
-- internal/core/scope/resolver.go: from an intent to the narrowest scope.
use open_delo.Prelude.Sorting.{sort_strings}
use open_delo.Intent.Structured.{Intent}
use open_delo.Prelude.{
  ℕ, ◌+◌, String, Bool, false, ◌&&◌, ◌||◌, not, ◌==◌, List, [], ◌∷◌, any, keep, map, if◌then◌else◌,
}
use open_delo.Prelude.Int.{ℤ, pos, pos_part, is_neg, is_num}
use open_delo.Prelude.Text.{codes, same_number, contains, Letters}
use open_delo.Platform.AppError.{Result, ok, ensure, ◌>>◌, invalid_request, internal}
use open_delo.Risk.Level.{Level, RiskLabel}
use open_delo.Matcher.Identity.{Identity, Environment}
use open_delo.Scope.Dimensions.{Scope, validate, same_environment, filled}

-- A duration is its number of nanoseconds.
pub record ScopeInput : Type 0 where
  pub intent : Intent
  pub agent_id : String
  pub workspace_id : String
  pub identity : Identity
  pub duration : ℤ
  pub request_limit : ℤ

pub record ScopeResult : Type 0 where
  pub scope : Scope
  pub injection : List String
  pub ignored_fields : List String
  pub ambiguous : Bool
  pub environment_assumed : Bool

-- Fifteen minutes.
abbrev pub default_duration : ℕ
default_duration = 900_000_000_000

abbrev pub default_request_limit : ℤ
default_request_limit = pos 1

abbrev pub task_request_limit : ℤ
task_request_limit = pos 20

unfoldable pub unmarked : Environment → Bool
unmarked (Environment.other s) = s == ""
unmarked _ = false

unfoldable pub check_input : ScopeInput → Result (Unit {0})
unfolding same_environment unmarked
check_input i = do
  ensure
      (not (
        filled i.identity.id
        && filled i.intent.service
        && not (i.identity.service == i.intent.service)))
      internal
  ensure
      (not (
        not (unmarked i.identity.environment)
        && not (same_environment i.identity.environment i.intent.environment)))
      internal
  ensure (not (is_neg i.duration)) invalid_request
  ensure (not (is_neg i.request_limit)) invalid_request

unfoldable pub ceiling_of : RiskLabel → Level
ceiling_of RiskLabel.low = Level.low
ceiling_of RiskLabel.medium = Level.medium
ceiling_of RiskLabel.high = Level.high
ceiling_of (RiskLabel.other _) = Level.other ""

abbrev pub injection_words : List String
injection_words =
    "scope" ∷ "permission" ∷ "privilege" ∷ "grant" ∷ "role" ∷ "policy" ∷ "risklevel" ∷ "lease"
    ∷ "expires" ∷ "ttl" ∷ "requestlimit" ∷ "environment" ∷ "approval" ∷ "approve" ∷ "autoallow"
    ∷ "allow" ∷ "deny" ∷ "trust" ∷ "bypass" ∷ "override" ∷ "elevate" ∷ "escalate" ∷ []

-- The characters that the replacer drops: `-`, `_`, `.` and the space.
abbrev pub is_separator : ℕ → Bool
is_separator c =
    same_number c b'-' || same_number c b'_' || same_number c b'.' || same_number c b' '

module _ (letters : Letters) where
  unfoldable pub normalize_field : String → List ℕ
  normalize_field field = keep (λ c. not (is_separator c)) (map letters.to_lower (codes field))

  unfoldable pub is_injection : String → Bool
  unfolding normalize_field
  is_injection field = any (λ word. contains (normalize_field field) (codes word)) injection_words

  unfoldable pub injection_fields : List String → List String
  unfolding is_injection
  injection_fields ignored = keep is_injection ignored

  -- The scope before it is validated, at the time `now`.
  unfoldable pub converge : ℕ → ScopeInput → Scope
  unfolding ceiling_of
  converge now i = record {
    agent_id = i.agent_id;
    workspace_id = i.workspace_id;
    service = i.intent.service;
    identity_id = i.identity.id;
    account = i.identity.account_label;
    resource = i.intent.resource;
    resource_key = i.intent.resource_key;
    operation = i.intent.operation;
    not_before = now;
    expires_at = now + pos_part (if is_num 0 i.duration then pos default_duration else i.duration);
    request_limit = if is_num 0 i.request_limit then default_request_limit else i.request_limit;
    environment = i.intent.environment;
    risk_ceiling = ceiling_of i.intent.risk_label;
  }

  unfoldable pub resolve : ℕ → ScopeInput → Result ScopeResult
  resolve now i = do
    check_input i
    validate (converge now i)
    ok (record {
      scope = converge now i;
      injection = injection_fields (sort_strings i.intent.ignored_fields);
      ignored_fields = sort_strings i.intent.ignored_fields;
      ambiguous = i.intent.resource_ambiguous;
      environment_assumed = i.intent.environment_assumed;
    })
