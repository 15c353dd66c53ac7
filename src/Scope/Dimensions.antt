-- ===== src/Scope/Dimensions.antt =====
-- internal/core/scope/scope.go: the scope, its validation and `Covers`. A time is its number of
-- nanoseconds since the zero time. A Go map is an association list whose keys differ.
use open_delo.Prelude.{
  ℕ, String, Bool, true, false, ◌&&◌, ◌||◌, not, ◌==◌, List, [], ◌∷◌, any, length, ltb, leb,
  if◌then◌else◌,
}
use open_delo.Prelude.Int.{ℤ, is_pos, leb_ℤ}
use open_delo.Prelude.Text.{codes, same_number}
use open_delo.Platform.AppError.{Result, ok, is_ok, ◌>>◌, ensure, invalid_request}
use open_delo.Risk.Level.{Level}
use open_delo.Matcher.Identity.{Environment, production, non_production}

abbrev pub Resource : Type 0
Resource = List (String × String)

pub record Scope : Type 0 where
  pub agent_id : String
  pub workspace_id : String
  pub service : String
  pub identity_id : String
  pub account : String
  pub resource : Resource
  pub resource_key : String
  pub operation : String
  pub not_before : ℕ
  pub expires_at : ℕ
  pub request_limit : ℤ
  pub environment : Environment
  pub risk_ceiling : Level

-- `text != ""`
abbrev pub filled : String → Bool
filled s = if s == "" then false else true

unfoldable pub valid_environment : Environment → Bool
valid_environment (Environment.other _) = false
valid_environment _ = true

-- scope.go `levelRank`.
unfoldable pub level_rank : Level → ℕ
level_rank Level.low = 1
level_rank Level.medium = 2
level_rank Level.high = 3
level_rank (Level.other _) = 0

unfoldable pub valid_level : Level → Bool
unfolding level_rank
valid_level l = ltb 0 (level_rank l)

abbrev pub is_empty {ℓ} : {A : Type ℓ} → List A → Bool
is_empty [] = true
is_empty (x ∷ xs) = false

unfoldable pub dimension_checks : Scope → List (String × Bool)
unfolding valid_environment valid_level
dimension_checks s =
    ("agent", filled s.agent_id)
    ∷ ("workspace", filled s.workspace_id)
    ∷ ("service", filled s.service)
    ∷ ("account", filled s.identity_id && filled s.account)
    ∷ ("resource", not (is_empty s.resource) && filled s.resource_key)
    ∷ ("operation", filled s.operation)
    ∷ ("time", ltb 0 s.not_before && ltb s.not_before s.expires_at)
    ∷ ("request_count", is_pos s.request_limit)
    ∷ ("environment", valid_environment s.environment)
    ∷ ("risk_level", valid_level s.risk_ceiling)
    ∷ []

unfoldable pub check_dimensions : List (String × Bool) → Result (Unit {0})
check_dimensions [] = ok tt
check_dimensions ((name, present) ∷ rest) = do ensure present invalid_request; check_dimensions rest

unfoldable pub validate : Scope → Result (Unit {0})
validate s = check_dimensions (dimension_checks s)

-- `s.Validate() == nil`
unfoldable pub is_valid : Scope → Bool
is_valid s = is_ok (validate s)

abbrev is_wild : ℕ → Bool
is_wild c = same_number c b'*' || same_number c b'?'

-- `strings.ContainsAny(value, "*?")`
unfoldable pub mentions_wild : String → Bool
mentions_wild s = any is_wild (codes s)

unfoldable pub has_wildcard : Resource → Bool
unfolding mentions_wild
has_wildcard [] = false
has_wildcard ((k, v) ∷ r) = mentions_wild v || has_wildcard r

-- `resource[key]`: the empty text where the key is missing.
unfoldable pub value_of : Resource → String → String
value_of [] k = ""
value_of ((j, v) ∷ r) k = if j == k then v else value_of r k

-- The loop over `left`.
unfoldable pub agrees_on : Resource → Resource → Bool
unfolding value_of
agrees_on [] right = true
agrees_on ((k, v) ∷ left) right = value_of right k == v && agrees_on left right

unfoldable pub same_resource : Resource → Resource → Bool
unfolding agrees_on
same_resource left right = same_number (length left) (length right) && agrees_on left right

unfoldable pub same_environment : Environment → Environment → Bool
same_environment production production = true
same_environment non_production non_production = true
same_environment (Environment.other x) (Environment.other y) = x == y
same_environment _ _ = false

-- The seven comparisons of the switch.
unfoldable pub same_names : Scope → Scope → Bool
unfolding same_environment
same_names s o =
    s.agent_id == o.agent_id
    && s.workspace_id == o.workspace_id
    && s.service == o.service
    && s.identity_id == o.identity_id
    && s.account == o.account
    && s.operation == o.operation
    && same_environment s.environment o.environment

-- Each early `return false` is a conjunct, in the order of the code.
unfoldable pub covers : Scope → Scope → Bool
covers s o =
    is_valid s
    && is_valid o
    && not (has_wildcard s.resource)
    && not (has_wildcard o.resource)
    && same_names s o
    && same_resource s.resource o.resource
    && leb s.not_before o.not_before
    && leb o.expires_at s.expires_at
    && leb_ℤ o.request_limit s.request_limit
    && leb (level_rank o.risk_ceiling) (level_rank s.risk_ceiling)

unfoldable pub covers_ignoring_window : Scope → Scope → Bool
covers_ignoring_window s o =
    covers s (record o { not_before = s.not_before; expires_at = s.expires_at })
