-- ===== src/Decision/Confirmations.antt =====
-- internal/core/decision/engine.go: how much confirmation a conclusion asks for.
use open_delo.Prelude.{
  ◌≤◌, ◌≡◌, ◌≢◌, refl, inl, inr, ◌↔◌, Bool, true, false, none, List, [], ◌∷◌, arith, Option-cases,
}
use open_delo.Prelude.Text.{Letters}
use open_delo.Risk.Level.{Level, high, is_high}
use open_delo.Decision.Verdicts.{Verdict, require_approval, deny, strong_auth}
use open_delo.Decision.Forbidden.{classify_forbidden}
use open_delo.Decision.FailClosed.{
  Mode, cautious, balanced, automatic, Blocker, policy_engine_failure, Input,
}
use open_delo.Decision.Engine.{
  Reason, requires_confirmation, Outcome, mode_rules, automatable, Branch, branches,
  required_confirmations, requirement_for, confirmations_for, conclude, fail_closed_outcome,
  forbidden_outcome, blocked, walk_branches, decide,
}

-- The confirmation fields as a function of the verdict alone.
abbrev pub Consistent : Input → Outcome → Type 0
Consistent i o =
    (o.approval_requirement ≡ requirement_for o.verdict i.assessment.level)
    × (o.confirmations ≡ confirmations_for o.verdict i.mode i.assessment.level)

conclude-Consistent : (i : Input) (v : Verdict) (r : Reason) → Consistent i (conclude i v r)
unfolding conclude
conclude-Consistent i v r = (refl, refl)

fail_closed-Consistent : (i : Input) (b : Blocker) → Consistent i (fail_closed_outcome b)
unfolding fail_closed_outcome requirement_for confirmations_for
fail_closed-Consistent i b = (refl, refl)

walk-Consistent : (i : Input) (a : Bool) (bs : List Branch) → Consistent i (walk_branches i a bs)
unfolding walk_branches
walk-Consistent i a [] = conclude-Consistent i require_approval requires_confirmation
walk-Consistent i a (b ∷ bs) = elim (Option-cases (b.hits i a)) [
  | inl e ↦ rw (e, walk_branches) (fail_closed-Consistent i policy_engine_failure)
  | inr (true, e) ↦ rw (e, walk_branches) (conclude-Consistent i b.verdict b.reason)
  | inr (false, e) ↦ rw (e, walk_branches) (walk-Consistent i a bs)
]

decide-Consistent : (letters : Letters) (i : Input) → Consistent i (decide letters i)
unfolding decide forbidden_outcome requirement_for confirmations_for
decide-Consistent letters i = elim (Option-cases (blocked i)) [
  | inr (b, e) ↦ rw (e, decide) (fail_closed-Consistent i b)
  | inl e ↦
      elim (Option-cases
        (classify_forbidden letters i.scope.scope.service i.scope.scope.operation)) [
          | inr (c, e') ↦ rw (e, e', decide) (refl, refl)
          | inl e' ↦ rw (e, e', decide) (walk-Consistent i (automatable i) branches)
        ]
]

unknown_mode-denies :
    (letters : Letters) (i : Input) → mode_rules i.mode ≡ none → (decide letters i).verdict ≡ deny
unfolding decide blocked fail_closed_outcome
unknown_mode-denies letters i h = ground arith

-- How often the rules of the modes ask, for a request of high risk and for any other.
confirmations_table :
    (m : Mode) (l : Level)
    → (mode_rules m ≢ none)
    → (required_confirmations m l ≡ 2) ↔ ((l ≡ high) × (m ≡ cautious))
unfolding required_confirmations mode_rules is_high
confirmations_table cautious l known = ground arith
confirmations_table balanced l known = ground arith
confirmations_table automatic l known = ground arith
confirmations_table (Mode.other x) l known = absurd (known refl)

required_confirmations-pos : (m : Mode) (l : Level) → 1 ≤ required_confirmations m l
unfolding required_confirmations
required_confirmations-pos m l = ground arith

-- An outcome asks for a confirmation exactly if its verdict is `require_approval`; the requirement
-- is strong exactly if besides risk is high; and two confirmations are asked for exactly if besides
-- risk is high and the mode is cautious.
pub decide_confirmations :
    (letters : Letters) (i : Input)
    → ((1 ≤ (decide letters i).confirmations) ↔ ((decide letters i).verdict ≡ require_approval))
      × (((decide letters i).approval_requirement ≡ strong_auth)
          ↔ (((decide letters i).verdict ≡ require_approval) × (i.assessment.level ≡ high)))
      × (((decide letters i).confirmations ≡ 2) ↔ (
          ((decide letters i).verdict ≡ require_approval)
          × (i.assessment.level ≡ high)
          × (i.mode ≡ cautious)))
unfolding requirement_for confirmations_for is_high
decide_confirmations letters i =
    let (r, c) = decide-Consistent letters i in
    let known : (decide letters i).verdict ≡ require_approval → mode_rules i.mode ≢ none =
      λ v e. ground (arith, unknown_mode-denies letters i e) in
    ground (
      arith,
      r,
      c,
      known,
      required_confirmations-pos i.mode i.assessment.level,
      confirmations_table i.mode i.assessment.level,
    )
