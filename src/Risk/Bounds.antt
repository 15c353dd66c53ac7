-- ===== src/Risk/Bounds.antt =====
-- internal/core/risk/engine.go: what level `evaluate` gives.
use open_delo.Prelude.{
  ◌≡◌, refl, Bool, true, ◌&&◌, ◌||◌, not, List, [], ◌∷◌, ◌++◌, take, drop, any, All, arith,
  if◌then◌else◌, Bool-cases, inl, inr, ◌∙◌,
}
use open_delo.Prelude.Int.{is_num}
use open_delo.Platform.AppError.{ok}
use open_delo.Risk.Level.{
  Level, low, medium, high, level_of, RiskLabel, is_high, is_medium, is_unverified, is_untrusted,
}
use open_delo.Risk.Factors.{Factors, valid_label}
use open_delo.Risk.Engine.{
  Rule, Factor, Assessment, rules, higher, apply_rules, first_reasons, evaluate,
}

-- The level that the loop ends with, without the reasons.
unfoldable pub raise_all : Factors → Level → List Rule → Level → Level
raise_all f baseline [] level = level
raise_all f baseline (r ∷ rs) level =
    raise_all f baseline rs (if r.triggered f then higher (r.raise baseline) level else level)

pub level-apply_rules :
    (f : Factors) (b : Level) (rs : List Rule) (l : Level) (reasons : List Factor)
    → (apply_rules f b rs l reasons).level ≡ raise_all f b rs l
unfolding apply_rules raise_all
level-apply_rules f b [] l reasons = refl
level-apply_rules f b (r ∷ rs) l reasons = level-apply_rules f b rs _ _

-- A request that calls for confirmation whatever else it is.
abbrev pub demands_high : Factors → Bool
demands_high f =
    f.destructive
    || f.permission_change
    || f.secret_access
    || f.billing
    || f.write && (not f.reversible || not (is_num 1 f.resource_count))
    || is_high (level_of f.declared_label)
    || f.write && f.beyond_history && is_medium (level_of f.declared_label)

abbrev pub demands_medium : Factors → Bool
demands_medium f =
    is_medium (level_of f.declared_label)
    || f.write
      && (f.production
          || f.beyond_history
          || f.first_seen
          || is_unverified f.agent_trust
          || is_untrusted f.device_trust
          || f.external_communication)

higher-high : (l : Level) → higher high l ≡ high
unfolding higher
higher-high low = refl
higher-high medium = refl
higher-high high = refl
higher-high (Level.other x) = refl

high-higher : (l : Level) → higher l high ≡ high
unfolding higher
high-higher low = refl
high-higher medium = refl
high-higher high = refl
high-higher (Level.other x) = refl

raise_all-high : (f : Factors) (b : Level) (rs : List Rule) → raise_all f b rs high ≡ high
unfolding raise_all
raise_all-high f b [] = refl
raise_all-high f b (r ∷ rs) = elim (Bool-cases (r.triggered f)) [
  | inl e ↦ rw (e, high-higher) (raise_all-high f b rs)
  | inr e ↦ rw e (raise_all-high f b rs)
]

raise_all-append :
    (f : Factors) (b : Level) (cs rs : List Rule) (l : Level)
    → raise_all f b (cs ++ rs) l ≡ raise_all f b rs (raise_all f b cs l)
unfolding raise_all
raise_all-append f b [] rs l = refl
raise_all-append f b (c ∷ cs) rs l = raise_all-append f b cs rs _

higher_self : (c : Level) → higher c c ≡ c
unfolding higher
higher_self c = ground arith

-- Rules that all raise the baseline to `c`: once there, and from a level below.
module _ (f : Factors) (b c : Level) where
  raise_all-same : (cs : List Rule) → All (λ r. r.raise b ≡ c) cs → raise_all f b cs c ≡ c
  unfolding raise_all
  raise_all-same [] h = refl
  raise_all-same (r ∷ cs) h = ground (arith, raise_all-same cs h.1, higher_self c)

  raise_all-any :
      (cs : List Rule) (l : Level)
      → higher c l ≡ c
      → All (λ r. r.raise b ≡ c) cs
      → raise_all f b cs l ≡ (if any (λ r. r.triggered f) cs then c else l)
  unfolding raise_all
  raise_all-any [] l up h = refl
  raise_all-any (r ∷ cs) l up h = ground (arith, raise_all-any cs l up h.1, raise_all-same cs h.1)

caps : Factors → Bool
unfolding rules
caps f = any (λ r. r.triggered f) (take 6 rules)

-- The first six rules of the table decide; else the last six do.
raise_all-rules :
    (f : Factors) (b l : Level)
    → raise_all f b rules l ≡ (if caps f then high else raise_all f b (drop 6 rules) l)
unfolding rules caps
raise_all-rules f b l = ground (
  arith,
  raise_all-append f b (take 6 rules) (drop 6 rules) l,
  raise_all-any f b high (take 6 rules) l (higher-high l)
      (refl, (refl, (refl, (refl, (refl, (refl, tt)))))),
  raise_all-high f b (drop 6 rules),
)

raise_all-lift_medium :
    (f : Factors)
    → raise_all f medium (drop 6 rules) medium
      ≡ (if f.write && f.beyond_history then high else medium)
unfolding raise_all rules higher
raise_all-lift_medium f = ground arith

raise_all-lift_low :
    (f : Factors)
    → raise_all f low (drop 6 rules) low
      ≡ (if any (λ r. r.triggered f) (drop 6 rules) then medium else low)
unfolding rules higher
raise_all-lift_low f =
    raise_all-any f low medium (drop 6 rules) low refl
      (refl, (refl, (refl, (refl, (refl, (refl, tt))))))

-- What a successful run has computed.
evaluate-ok :
    (f : Factors) (a : Assessment)
    → evaluate f ≡ ok a
    → (valid_label f.declared_label ≡ true)
      × (a.level ≡ raise_all f (level_of f.declared_label) rules (level_of f.declared_label))
unfolding evaluate
evaluate-ok f a h = ground (
  arith,
  level-apply_rules f (level_of f.declared_label) rules (level_of f.declared_label)
      (first_reasons f),
)

expected_level : Factors → Level
expected_level f = if demands_high f then high else if demands_medium f then medium else low

expected-raise :
    (f : Factors) (l : RiskLabel)
    → f.declared_label ≡ l
    → valid_label l ≡ true
    → raise_all f (level_of l) rules (level_of l) ≡ expected_level f
unfolding expected_level caps level_of valid_label is_high is_medium rules
expected-raise f RiskLabel.low e v = ground (arith, raise_all-rules f low low, raise_all-lift_low f)
expected-raise f RiskLabel.medium e v =
    ground (arith, raise_all-rules f medium medium, raise_all-lift_medium f)
expected-raise f RiskLabel.high e v = ground (arith, raise_all-high f high rules)
expected-raise f (RiskLabel.other x) e v = cc

-- `evaluate` gives exactly: high for a request that calls for it or that a medium declaration and
-- an unlearned scope lift there; else medium; else low.
pub level-evaluate :
    (f : Factors) (a : Assessment)
    → evaluate f ≡ ok a
    → a.level ≡ (if demands_high f then high else if demands_medium f then medium else low)
unfolding expected_level
level-evaluate f a h =
    let (v, e) = evaluate-ok f a h in e ∙ expected-raise f f.declared_label refl v
