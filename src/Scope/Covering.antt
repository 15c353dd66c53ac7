-- ===== src/Scope/Covering.antt =====
-- internal/core/scope/scope.go: what `Covers` answers.
use text.Mathlib.TextPositions.{eq_refl}
use open_delo.Prelude.{
  ◌≤◌, String, ◌≡◌, refl, ap, Bool, true, false, eq_iff, List, [], ◌∷◌, All, length, arith,
}
use open_delo.Prelude.Int.{◌≤ℤ◌}
use open_delo.Platform.AppError.{is_ok}
use open_delo.Matcher.Identity.{Environment, production, non_production}
use open_delo.Scope.Dimensions.{
  Resource, Scope, dimension_checks, check_dimensions, validate, is_valid, has_wildcard, value_of,
  agrees_on, same_resource, same_environment, same_names, level_rank, covers,
}
use open_delo.Scope.Resources.{IsMap, IsFilled, value_of-same_resource}

same_environment-eq : (a b : Environment) → same_environment a b ≡ true → a ≡ b
unfolding same_environment
same_environment-eq production production h = refl
same_environment-eq production non_production h = cc
same_environment-eq production (Environment.other y) h = cc
same_environment-eq non_production production h = cc
same_environment-eq non_production non_production h = refl
same_environment-eq non_production (Environment.other y) h = cc
same_environment-eq (Environment.other x) production h = cc
same_environment-eq (Environment.other x) non_production h = cc
same_environment-eq (Environment.other x) (Environment.other y) h =
    ap Environment.other ((eq_iff x y).0 h)

same_environment_refl : (a : Environment) → same_environment a a ≡ true
unfolding same_environment
same_environment_refl production = refl
same_environment_refl non_production = refl
same_environment_refl (Environment.other x) = eq_refl x

-- A valid scope is one whose ten dimensions are all there.
check_dimensions-All :
    (l : List (String × Bool)) → is_ok (check_dimensions l) ≡ true → All (λ c. c.1 ≡ true) l
unfolding check_dimensions
check_dimensions-All [] h = tt
check_dimensions-All ((name, true) ∷ l) h = (refl, check_dimensions-All l h)
check_dimensions-All ((name, false) ∷ l) h = cc

All-check_dimensions :
    (l : List (String × Bool)) → All (λ c. c.1 ≡ true) l → is_ok (check_dimensions l) ≡ true
unfolding check_dimensions
All-check_dimensions [] h = refl
All-check_dimensions ((name, true) ∷ l) h = All-check_dimensions l h.1
All-check_dimensions ((name, false) ∷ l) h = cc h.0

pub is_valid-All : (s : Scope) → is_valid s ≡ true → All (λ c. c.1 ≡ true) (dimension_checks s)
unfolding is_valid validate
is_valid-All s h = check_dimensions-All (dimension_checks s) h

pub All-is_valid : (s : Scope) → All (λ c. c.1 ≡ true) (dimension_checks s) → is_valid s ≡ true
unfolding is_valid validate
All-is_valid s h = All-check_dimensions (dimension_checks s) h

-- The seven dimensions that must be the same.
pub record SameNames (s o : Scope) : Type 0 where
  pub agent_id : s.agent_id ≡ o.agent_id
  pub workspace_id : s.workspace_id ≡ o.workspace_id
  pub service : s.service ≡ o.service
  pub identity_id : s.identity_id ≡ o.identity_id
  pub account : s.account ≡ o.account
  pub operation : s.operation ≡ o.operation
  pub environment : s.environment ≡ o.environment

same_names-SameNames : (s o : Scope) → same_names s o ≡ true → SameNames s o
unfolding same_names
same_names-SameNames s o h = ground (
  arith,
  eq_iff s.agent_id o.agent_id,
  eq_iff s.workspace_id o.workspace_id,
  eq_iff s.service o.service,
  eq_iff s.identity_id o.identity_id,
  eq_iff s.account o.account,
  eq_iff s.operation o.operation,
  same_environment-eq s.environment o.environment,
)

SameNames-same_names : (s o : Scope) → SameNames s o → same_names s o ≡ true
unfolding same_names
SameNames-same_names s o h = ground (
  arith,
  eq_refl s.agent_id,
  eq_refl s.workspace_id,
  eq_refl s.service,
  eq_refl s.identity_id,
  eq_refl s.account,
  eq_refl s.operation,
  same_environment_refl s.environment,
)

same_resource-parts :
    (l r : Resource) → same_resource l r ≡ true → (length l ≡ length r) × (agrees_on l r ≡ true)
unfolding same_resource
same_resource-parts l r h = ground arith

parts-same_resource :
    (l r : Resource) → length l ≡ length r → agrees_on l r ≡ true → same_resource l r ≡ true
unfolding same_resource
parts-same_resource l r e h = ground arith

-- What it is to lie within a scope, read off the documentation of `Covers`: the seven names are
-- the same, the resource values are, and window, count and risk ceiling are not exceeded.
pub record Within (s o : Scope) : Type 0 where
  pub names : SameNames s o
  pub resources : (k : String) → value_of o.resource k ≡ value_of s.resource k
  pub not_before : s.not_before ≤ o.not_before
  pub expires_at : o.expires_at ≤ s.expires_at
  pub request_limit : o.request_limit ≤ℤ s.request_limit
  pub risk_ceiling : level_rank o.risk_ceiling ≤ level_rank s.risk_ceiling

-- The conjuncts of the code.
pub record Covered (s o : Scope) : Type 0 where
  pub left_valid : is_valid s ≡ true
  pub right_valid : is_valid o ≡ true
  pub left_exact : has_wildcard s.resource ≡ false
  pub right_exact : has_wildcard o.resource ≡ false
  pub names : SameNames s o
  pub size : length s.resource ≡ length o.resource
  pub values : agrees_on s.resource o.resource ≡ true
  pub not_before : s.not_before ≤ o.not_before
  pub expires_at : o.expires_at ≤ s.expires_at
  pub request_limit : o.request_limit ≤ℤ s.request_limit
  pub risk_ceiling : level_rank o.risk_ceiling ≤ level_rank s.risk_ceiling

pub covers-Covered : (s o : Scope) → covers s o ≡ true → Covered s o
unfolding covers
covers-Covered s o h =
    ground (arith, same_names-SameNames s o, same_resource-parts s.resource o.resource)

pub Covered-covers : (s o : Scope) → Covered s o → covers s o ≡ true
unfolding covers
Covered-covers s o c = ground (
  arith,
  SameNames-same_names s o c.names,
  parts-same_resource s.resource o.resource c.size c.values,
)

-- Where one scope covers another, both with resources that are maps and the first one's values not
-- empty, the second lies within the first: same names, same value at every resource key, and
-- window, request limit and risk ceiling not exceeded.
pub covers-Within :
    (s o : Scope)
    → IsMap s.resource
    → IsMap o.resource
    → IsFilled s.resource
    → covers s o ≡ true
    → Within s o
covers-Within s o ms mo fs h =
    let c = covers-Covered s o h in
    record {
      names = c.names;
      resources = value_of-same_resource s.resource o.resource ms mo fs c.size c.values;
      not_before = c.not_before;
      expires_at = c.expires_at;
      request_limit = c.request_limit;
      risk_ceiling = c.risk_ceiling;
    }
