-- ===== src/Decision/AutoAllow.antt =====
-- internal/core/decision/engine.go: exactly when a request is allowed without asking.
use open_delo.Prelude.{◌≡◌, ◌≢◌, refl, ◌⊎◌, ◌↔◌, true, false, ◌&&◌, ◌||◌, none, some, arith}
use open_delo.Prelude.Text.{Letters}
use open_delo.Risk.Level.{low, medium, high, is_low, is_medium, is_high, is_unverified}
use open_delo.Matcher.Matching.{is_nil}
use open_delo.Decision.Verdicts.{Verdict, auto_allow}
use open_delo.Decision.Forbidden.{classify_forbidden}
use open_delo.Decision.FailClosed.{Input}
use open_delo.Decision.Engine.{
  Reason, mode_rules, matched_grant, matched_lease, automatable, asks_always, present,
  rule_low_risk, rule_learned_medium, branches, conclude, fail_closed_outcome, forbidden_outcome,
  blocked, walk_branches, decide,
}

-- What may stand in place of a human's confirmation.
abbrev pub Basis : Input → Type 0
Basis i =
    (present (matched_lease i) ≡ true)
    ⊎ ((i.assessment.level ≡ low) × (rule_low_risk i ≡ some true))
    ⊎ ((i.assessment.level ≡ medium)
        × (present (matched_grant i) ≡ true)
        × (rule_learned_medium i ≡ some true))

-- The conditions of an automatic allowance.
pub record Allowed (letters : Letters) (i : Input) : Type 0 where
  pub unblocked : blocked i ≡ none
  pub permitted : classify_forbidden letters i.scope.scope.service i.scope.scope.operation ≡ none
  pub not_high : i.assessment.level ≢ high
  pub within_learned : (is_nil i.learned || present (matched_grant i)) ≡ true
  pub unambiguous : i.matched.ambiguous ≡ false
  pub reviewed : i.matched.needs_review ≡ false
  pub definite : i.scope.ambiguous ≡ false
  pub not_unverified_write : (i.write && is_unverified i.agent_trust) ≡ false
  pub not_asking : asks_always i ≡ false
  pub basis : Basis i

pub verdict-conclude : (i : Input) (v : Verdict) (r : Reason) → (conclude i v r).verdict ≡ v
unfolding conclude
verdict-conclude i v r = refl

mode_known : (i : Input) → blocked i ≡ none → present (mode_rules i.mode) ≡ true
unfolding blocked
mode_known i h = ground arith

walk-allowed :
    (i : Input)
    → (walk_branches i (automatable i) branches).verdict ≡ auto_allow
    → (i.assessment.level ≢ high)
      × ((is_nil i.learned || present (matched_grant i)) ≡ true)
      × (i.matched.ambiguous ≡ false)
      × (automatable i ≡ true)
      × Basis i
unfolding walk_branches branches is_low is_medium is_high
walk-allowed i h = ground arith

decide-walk :
    (letters : Letters) (i : Input)
    → (decide letters i).verdict ≡ auto_allow
    → (blocked i ≡ none)
      × (classify_forbidden letters i.scope.scope.service i.scope.scope.operation ≡ none)
      × ((walk_branches i (automatable i) branches).verdict ≡ auto_allow)
unfolding decide fail_closed_outcome forbidden_outcome
decide-walk letters i h = ground arith

automatable-parts :
    (i : Input)
    → automatable i ≡ true
    → (i.matched.needs_review ≡ false)
      × (i.scope.ambiguous ≡ false)
      × ((i.write && is_unverified i.agent_trust) ≡ false)
      × (asks_always i ≡ false)
unfolding automatable
automatable-parts i h = ground arith

parts-automatable :
    (i : Input)
    → i.matched.needs_review ≡ false
    → i.scope.ambiguous ≡ false
    → (i.write && is_unverified i.agent_trust) ≡ false
    → asks_always i ≡ false
    → automatable i ≡ true
unfolding automatable
parts-automatable i a b c d = ground arith

allowed-walk :
    (i : Input)
    → i.assessment.level ≢ high
    → (is_nil i.learned || present (matched_grant i)) ≡ true
    → i.matched.ambiguous ≡ false
    → automatable i ≡ true
    → Basis i
    → present (mode_rules i.mode) ≡ true
    → (walk_branches i (automatable i) branches).verdict ≡ auto_allow
unfolding walk_branches branches is_low is_medium is_high rule_low_risk
allowed-walk i h w u a b m = ground arith

-- A request is allowed without asking exactly if it is not blocked, not forbidden, not of high
-- risk, within what was learned where anything was, matched to one identity that needs no review,
-- its resource not ambiguous, no write by an unverified agent, and no covering grant asks always;
-- and it rests on a lease that covers it, or on low risk with the mode's consent, or on medium risk
-- with a covering grant and the mode's consent.
pub decide_auto_allow_iff :
    (letters : Letters) (i : Input) → ((decide letters i).verdict ≡ auto_allow) ↔ Allowed letters i
unfolding decide
decide_auto_allow_iff letters i = (sound, complete)
  where
    sound : (decide letters i).verdict ≡ auto_allow → Allowed letters i
    sound h =
        let (unblocked, permitted, walked) = decide-walk letters i h in
        let (not_high, within, unambiguous, automatic, basis) = walk-allowed i walked in
        let (reviewed, definite, verified, silent) = automatable-parts i automatic in
        record {
          unblocked = unblocked;
          permitted = permitted;
          not_high = not_high;
          within_learned = within;
          unambiguous = unambiguous;
          reviewed = reviewed;
          definite = definite;
          not_unverified_write = verified;
          not_asking = silent;
          basis = basis;
        }

    complete : Allowed letters i → (decide letters i).verdict ≡ auto_allow
    complete h =
        rw (h.unblocked, h.permitted, decide)
          (allowed-walk i h.not_high h.within_learned h.unambiguous
            (parts-automatable i h.reviewed h.definite h.not_unverified_write h.not_asking) h.basis
            (mode_known i h.unblocked))
