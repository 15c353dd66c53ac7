-- ===== src/Examples/Risks.antt =====
-- Runs of internal/core/risk on concrete inputs.
use open_delo.Prelude.{◌≡◌, refl, List, [], ◌∷◌, if◌then◌else◌}
use open_delo.Platform.AppError.{ok}
use open_delo.Risk.Level.{
  low, medium, high, rank, level_of, is_low, is_medium, is_high, is_unverified, is_untrusted,
}
use open_delo.Risk.Factors.{valid_label, valid_trust_level, valid_device_trust, validate}
use open_delo.Risk.Engine.{
  Rule, to_high, at_least_medium, one_level_up, rules, higher, apply_rules, first_reasons, evaluate,
}
use open_delo.Risk.Bounds.{demands_high, demands_medium, level-evaluate}
use mathlib.Core.List.{Permᴰ}
use open_delo.Examples.Samples.{read_factors, low_assessment}

read_assessed : evaluate read_factors ≡ ok low_assessment
unfolding evaluate validate valid_label valid_trust_level valid_device_trust apply_rules rules
    higher first_reasons to_high at_least_medium one_level_up rank level_of is_low is_medium is_high
    is_unverified is_untrusted
read_assessed = refl

level-evaluate_example : low_assessment.level ≡ (
    if demands_high read_factors then high else if demands_medium read_factors then medium else low)
level-evaluate_example = level-evaluate read_factors low_assessment read_assessed

-- The first two rules change places.
swap_two : List Rule → List Rule
swap_two (r ∷ s ∷ rs) = s ∷ r ∷ rs
swap_two rs = rs

swap_two-Permᴰ : (rs : List Rule) → Permᴰ rs (swap_two rs)
unfolding swap_two
swap_two-Permᴰ [] = Permᴰ.nil
swap_two-Permᴰ (r ∷ []) = Permᴰ.cons refl Permᴰ.nil
swap_two-Permᴰ (r ∷ s ∷ rs) = Permᴰ.swap refl refl
