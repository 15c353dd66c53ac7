-- ===== src/Intent/Places.antt =====
-- internal/core/intent/resolver.go: which environment a call is taken for.
use open_delo.Prelude.{◌≡◌, ◌≢◌, ◌↔◌, ◌⊎◌, true, false, arith}
use open_delo.Matcher.Identity.{Environment, production, non_production}
use open_delo.Scope.Dimensions.{Resource}
use open_delo.Intent.Catalog.{Codec}
use open_delo.Intent.Resolver.{Patterns, matches_any, resolve_environment}

-- Without a mark on the identity that names an environment.
abbrev pub Unmarked : Environment → Type 0
Unmarked declared = (declared ≢ production) × (declared ≢ non_production)

module _ (codec : Codec) where
  -- A call is taken for a non-production one exactly if the identity is marked so or, the identity
  -- not being marked, a pattern for non-production fits and none for production does. It is taken
  -- for a production one without being sure exactly if the identity is not marked and no pattern
  -- fits; and never for anything else.
  pub resolve_environment_iff :
      (patterns : Patterns) (declared : Environment) (resource : Resource)
      → (((resolve_environment codec patterns declared resource).0 ≡ non_production) ↔ (
          (declared ≡ non_production)
          ⊎ (Unmarked declared
              × (matches_any codec patterns.production resource ≡ false)
              × (matches_any codec patterns.non_production resource ≡ true))))
        × (((resolve_environment codec patterns declared resource).1 ≡ true) ↔ (
            Unmarked declared
            × (matches_any codec patterns.production resource ≡ false)
            × (matches_any codec patterns.non_production resource ≡ false)))
        × (((resolve_environment codec patterns declared resource).0 ≡ production)
            ⊎ ((resolve_environment codec patterns declared resource).0 ≡ non_production))
  unfolding resolve_environment
  resolve_environment_iff patterns Environment.production resource = ground arith
  resolve_environment_iff patterns Environment.non_production resource = ground arith
  resolve_environment_iff patterns (Environment.other s) resource = ground arith
