-- ===== src/Decision/Engine.antt =====
-- internal/core/decision/engine.go. A `none` where an answer is due is a panic of the Go code: the
-- call of a function that the table of modes does not hold.
use open_delo.Prelude.{
  ℕ, String, Bool, true, false, ◌&&◌, ◌||◌, not, Option, none, some, List, [], ◌∷◌, any, find,
  if◌then◌else◌,
}
use open_delo.Prelude.Text.{Letters}
use open_delo.Risk.Level.{Level, is_low, is_medium, is_high, is_unverified}
use open_delo.Matcher.Matching.{is_nil}
use open_delo.Scope.Dimensions.{covers_ignoring_window}
use open_delo.Decision.Verdicts.{
  Verdict, auto_allow, require_approval, deny, ApprovalRequirement, unneeded, standard, strong_auth,
}
use open_delo.Decision.Forbidden.{Forbidden, classify_forbidden}
use open_delo.Decision.FailClosed.{
  Mode, cautious, balanced, automatic, Blocker, policy_engine_failure, Grant, ActiveLease, Input,
  valid_blocker, self_detected,
}

pub data Reason : Type 0 where
  fail_closed forbidden high_risk beyond_learned_scope identity_ambiguous low_risk : Reason
  trust_memory_match active_lease requires_confirmation : Reason

-- An empty text or a missing blocker or category of the Go record is `none`.
pub record Outcome : Type 0 where
  pub verdict : Verdict
  pub approval_requirement : ApprovalRequirement
  pub reason : Reason
  pub confirmations : ℕ
  pub blocker : Option Blocker
  pub forbidden : Option Forbidden
  pub matched_memory_id : Option String
  pub matched_lease_id : Option String

pub record ModeRule : Type 0 where
  pub low_risk : Input → Bool
  pub learned_medium : Input → Bool
  pub double_confirmation : Bool

unfoldable pub cautious_auto_allow : Input → Bool
cautious_auto_allow i =
    not i.write && i.read_only_auto_allow && not i.new_service && not i.identity_changed

-- The map `modeRules`.
unfoldable pub mode_rules : Mode → Option ModeRule
unfolding cautious_auto_allow
mode_rules cautious = some (record {
  low_risk = cautious_auto_allow;
  learned_medium = cautious_auto_allow;
  double_confirmation = true;
})
mode_rules balanced = some (record {
  low_risk = λ i. not i.write;
  learned_medium = λ i. true;
  double_confirmation = false;
})
mode_rules automatic = some (record {
  low_risk = λ i. not i.write || not i.new_identity && not i.new_resource;
  learned_medium = λ i. true;
  double_confirmation = false;
})
mode_rules (Mode.other _) = none

unfoldable pub matched_grant : Input → Option Grant
matched_grant i = find (λ g. covers_ignoring_window g.scope i.scope.scope) i.learned

unfoldable pub matched_lease : Input → Option ActiveLease
matched_lease i = find (λ l. covers_ignoring_window l.scope i.scope.scope) i.active

unfoldable pub asks_always : Input → Bool
asks_always i = any (λ g. g.always_ask && covers_ignoring_window g.scope i.scope.scope) i.learned

unfoldable pub automatable : Input → Bool
automatable i = not (
    i.matched.needs_review
    || i.scope.ambiguous
    || i.write && is_unverified i.agent_trust
    || asks_always i)

abbrev pub present {ℓ} : {A : Type ℓ} → Option A → Bool
present none = false
present (some a) = true

-- A conjunction whose right side may panic.
abbrev pub and_then : Bool → Option Bool → Option Bool
and_then true test = test
and_then false test = some false

-- `i.rule().lowRisk(i)` and `i.rule().learnedMedium(i)`
unfoldable pub rule_low_risk : Input → Option Bool
rule_low_risk i = elim (mode_rules i.mode) [ none ↦ none | some r ↦ some (r.low_risk i) ]

unfoldable pub rule_learned_medium : Input → Option Bool
rule_learned_medium i = elim (mode_rules i.mode) [
  | none ↦ none
  | some r ↦ some (r.learned_medium i)
]

pub record Branch : Type 0 where
  pub reason : Reason
  pub hits : Input → Bool → Option Bool
  pub verdict : Verdict

unfoldable pub branches : List Branch
branches =
    record {
      reason = high_risk;
      hits = λ i a. some (is_high i.assessment.level);
      verdict = require_approval;
    }
    ∷ record {
      reason = beyond_learned_scope;
      hits = λ i a. some (not (is_nil i.learned) && not (present (matched_grant i)));
      verdict = require_approval;
    }
    ∷ record {
      reason = identity_ambiguous;
      hits = λ i a. some i.matched.ambiguous;
      verdict = require_approval;
    }
    ∷ record {
      reason = active_lease;
      hits = λ i a. some (a && not (is_high i.assessment.level) && present (matched_lease i));
      verdict = auto_allow;
    }
    ∷ record {
      reason = low_risk;
      hits = λ i a. and_then (a && is_low i.assessment.level) (rule_low_risk i);
      verdict = auto_allow;
    }
    ∷ record {
      reason = trust_memory_match;
      hits = λ i a.
          and_then (a && is_medium i.assessment.level && present (matched_grant i))
            (rule_learned_medium i);
      verdict = auto_allow;
    }
    ∷ []

-- `RequiredConfirmations`: an unknown mode counts as the strictest.
unfoldable pub required_confirmations : Mode → Level → ℕ
required_confirmations mode level =
    if is_high level
    then (elim (mode_rules mode) [ none ↦ 2 | some r ↦ if r.double_confirmation then 2 else 1 ])
    else 1

unfoldable pub requirement_for : Verdict → Level → ApprovalRequirement
requirement_for require_approval level = if is_high level then strong_auth else standard
requirement_for _ level = unneeded

unfoldable pub confirmations_for : Verdict → Mode → Level → ℕ
unfolding required_confirmations
confirmations_for require_approval mode level = required_confirmations mode level
confirmations_for _ mode level = 0

-- The lease is named only where it is the reason.
unfoldable pub lease_named : Reason → Option ActiveLease → Option String
lease_named active_lease (some l) = some l.lease_id
lease_named _ _ = none

abbrev pub grant_named : Option Grant → Option String
grant_named none = none
grant_named (some g) = some g.memory_id

unfoldable pub conclude : Input → Verdict → Reason → Outcome
unfolding requirement_for confirmations_for lease_named
conclude i verdict reason = record {
  verdict = verdict;
  approval_requirement = requirement_for verdict i.assessment.level;
  reason = reason;
  confirmations = confirmations_for verdict i.mode i.assessment.level;
  blocker = none;
  forbidden = none;
  matched_memory_id = grant_named (matched_grant i);
  matched_lease_id = lease_named reason (matched_lease i);
}

unfoldable pub fail_closed_outcome : Blocker → Outcome
fail_closed_outcome b = record {
  verdict = deny;
  approval_requirement = unneeded;
  reason = fail_closed;
  confirmations = 0;
  blocker = some b;
  forbidden = none;
  matched_memory_id = none;
  matched_lease_id = none;
}

unfoldable pub forbidden_outcome : Forbidden → Outcome
forbidden_outcome category = record {
  verdict = deny;
  approval_requirement = unneeded;
  reason = forbidden;
  confirmations = 0;
  blocker = none;
  forbidden = some category;
  matched_memory_id = none;
  matched_lease_id = none;
}

-- What the caller reported: an unknown blocker counts as a failure of the engine.
unfoldable pub reported : List Blocker → Option Blocker
reported [] = none
reported (b ∷ bs) =
    if any (λ x. not (valid_blocker x)) (b ∷ bs) then some policy_engine_failure else some b

unfoldable pub blocked : Input → Option Blocker
unfolding reported
blocked i =
    if present (mode_rules i.mode)
    then (elim (reported i.blockers) [ some b ↦ some b | none ↦ self_detected i ])
    else some policy_engine_failure

-- The loop over the branches and the default after it. A panic ends in the deferred `recover`.
unfoldable pub walk_branches : Input → Bool → List Branch → Outcome
unfolding conclude fail_closed_outcome
walk_branches i a [] = conclude i require_approval requires_confirmation
walk_branches i a (b ∷ bs) = elim (b.hits i a) [
  | none ↦ fail_closed_outcome policy_engine_failure
  | some true ↦ conclude i b.verdict b.reason
  | some false ↦ walk_branches i a bs
]

module _ (letters : Letters) where
  unfoldable pub decide : Input → Outcome
  decide i = elim (blocked i) [
    | some b ↦ fail_closed_outcome b
    | none ↦ elim (classify_forbidden letters i.scope.scope.service i.scope.scope.operation) [
      | some category ↦ forbidden_outcome category
      | none ↦ walk_branches i (automatable i) branches
    ]
  ]
