-- ===== src/Intent/Structured.antt =====
-- internal/core/intent/intent.go: a request in standard form.
use open_delo.Prelude.{String, Bool, ◌&&◌, not, List, map}
use open_delo.Prelude.Sorting.{sort_strings, join, ◌+++◌}
use open_delo.Platform.AppError.{Result, ensure, ◌>>◌, capability_not_offered}
use open_delo.Risk.Level.{RiskLabel}
use open_delo.Risk.Factors.{valid_label}
use open_delo.Matcher.Identity.{Environment}
use open_delo.Scope.Dimensions.{Resource, value_of, valid_environment, is_empty, filled}

pub record Intent : Type 0 where
  pub service : String
  pub operation : String
  pub resource : Resource
  pub resource_key : String
  pub ignored_fields : List String
  pub environment : Environment
  pub environment_assumed : Bool
  pub desired_change : String
  pub reversible : Bool
  pub sensitive_data : Bool
  pub idempotent : Bool
  pub risk_label : RiskLabel
  pub resource_ambiguous : Bool

-- The switch of `validate`, in its order.
unfoldable pub validate : Intent → Result (Unit {0})
unfolding valid_environment valid_label
validate i = do
  ensure (filled i.service) capability_not_offered
  ensure (filled i.operation) capability_not_offered
  ensure (not (is_empty i.resource) && filled i.resource_key) capability_not_offered
  ensure (valid_environment i.environment) capability_not_offered
  ensure (valid_label i.risk_label) capability_not_offered

unfoldable pub key_part : Resource → String → String
unfolding value_of
key_part resource key = key +++ "=" +++ value_of resource key

-- The keys of a map, each once.
abbrev pub keys_of : Resource → List String
keys_of resource = map (λ e. e.0) resource

unfoldable pub resource_key_of : Resource → String
unfolding key_part sort_strings join
resource_key_of resource = join ";" (map (key_part resource) (sort_strings (keys_of resource)))
