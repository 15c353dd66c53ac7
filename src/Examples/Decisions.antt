-- ===== src/Examples/Decisions.antt =====
-- Runs of internal/core/decision on concrete inputs.
use open_delo.Prelude.{
  any, ℕ, ◌≡◌, refl, ◌≢◌, ◌↔◌, ◌⊎◌, true, none, some, List, [], ◌∷◌, arith, any,
}
use open_delo.Prelude.Text.{codes}
use open_delo.Risk.Engine.{declared_label}
use open_delo.Risk.Level.{high, is_low, is_medium, is_high, is_unverified}
use open_delo.Scope.Dimensions.{
  valid_environment, level_rank, valid_level, dimension_checks, check_dimensions, validate,
  is_valid, mentions_wild, has_wildcard, value_of, agrees_on, same_resource, same_environment,
  same_names, covers, covers_ignoring_window,
}
use open_delo.Decision.Verdicts.{auto_allow, deny}
use open_delo.Decision.Forbidden.{
  credential_nouns, joined_hits, mentions_any, trim_s, flush, scan_letter, segments_from,
  segments_of, classify_forbidden,
}
use open_delo.Decision.FailClosed.{
  Mode, cautious, policy_engine_failure, gateway_offline, Input, unnamed_level, resolvable_match,
  valid_assessment, valid_blocker, self_checks, first_tripped, self_detected,
}
use open_delo.Decision.Engine.{
  mode_rules, matched_grant, matched_lease, asks_always, automatable, rule_low_risk, branches,
  lease_named, conclude, fail_closed_outcome, reported, blocked, walk_branches, decide,
}
use open_delo.Decision.AutoAllow.{Allowed, decide_auto_allow_iff}
use open_delo.Decision.Closed.{decide_deny_iff}
use open_delo.Decision.Words.{runs, is_keyword, mentions_any-runs}
use open_delo.Decision.FromMatcher.{match_identity-resolvable_match}
use open_delo.Examples.Samples.{
  ascii, read_decision, read_lease, asking_grant, read_request, bound_inputs, work_match,
  read_scope,
}
use open_delo.Examples.Matches.{read_matched}

-- A read of low risk in a mode that lets it pass.
read_allowed : (decide ascii read_decision).verdict ≡ auto_allow
unfolding decide blocked mode_rules self_detected first_tripped self_checks is_valid validate
    check_dimensions dimension_checks classify_forbidden mentions_any segments_of walk_branches
    branches is_high automatable asks_always conclude matched_grant matched_lease rule_low_risk
    resolvable_match unnamed_level valid_assessment valid_blocker flush joined_hits scan_letter
    segments_from trim_s is_low is_medium is_unverified valid_environment valid_level level_rank
    reported
read_allowed = refl

decide_auto_allow_iff_example :
    ((decide ascii read_decision).verdict ≡ auto_allow) ↔ Allowed ascii read_decision
decide_auto_allow_iff_example = decide_auto_allow_iff ascii read_decision

-- The gateway is off.
abbrev offline : Input
offline = record read_decision { blockers = gateway_offline ∷ [] }

decide_deny_iff_example :
    (((decide ascii offline).verdict ≡ deny) ↔ (
      (blocked offline ≢ none)
      ⊎ (classify_forbidden ascii offline.scope.scope.service offline.scope.scope.operation
          ≢ none)))
    × ((decide ascii offline).blocker ≡ blocked offline)
decide_deny_iff_example = decide_deny_iff ascii offline

-- The mode is none of the three.
abbrev unruled : Input
unruled = record read_decision { mode = Mode.other "bold" }

unruled_blocker : (decide ascii unruled).blocker ≡ some policy_engine_failure
unfolding decide blocked mode_rules self_detected first_tripped self_checks is_valid validate
    check_dimensions dimension_checks resolvable_match unnamed_level valid_assessment
    valid_environment valid_level level_rank fail_closed_outcome reported
unruled_blocker = refl

-- The request is within a lease that stands.
abbrev leased : Input
leased = record read_decision { active = read_lease ∷ [] }

covers_itself : covers_ignoring_window read_scope read_scope ≡ true
unfolding covers_ignoring_window covers same_names same_resource same_environment agrees_on value_of
    has_wildcard mentions_wild level_rank is_valid validate check_dimensions dimension_checks
    valid_environment valid_level
covers_itself = refl

leased_by : (decide ascii leased).matched_lease_id ≡ some "lease-1"
unfolding decide blocked mode_rules self_detected first_tripped self_checks is_valid validate
    check_dimensions dimension_checks classify_forbidden mentions_any segments_of walk_branches
    branches is_high automatable asks_always conclude matched_grant matched_lease rule_low_risk
    resolvable_match unnamed_level valid_assessment valid_blocker flush joined_hits scan_letter
    segments_from trim_s is_low is_medium is_unverified valid_environment valid_level level_rank
    reported covers_ignoring_window covers same_names same_resource same_environment agrees_on
    value_of has_wildcard mentions_wild lease_named
leased_by = refl

-- The user wants to be asked each time, lease or not.
abbrev asked : Input
asked = record leased { learned = asking_grant ∷ [] }

-- High risk in the strictest mode.
abbrev risky : Input
risky = record read_decision {
  mode = cautious;
  assessment = record { level = high; factors = declared_label ∷ [] };
}

-- The agent asks OpenDelo for OpenDelo itself.
abbrev own_service : Input
own_service = record read_decision {
  scope = record read_decision.scope { scope = record read_scope { service = "OpenDelo" } };
}

abbrev key_words : List (List ℕ)
key_words = codes "get" ∷ codes "private" ∷ codes "key" ∷ []

mentions_any-runs_example :
    mentions_any key_words credential_nouns ≡ any (is_keyword credential_nouns) (runs key_words)
mentions_any-runs_example = mentions_any-runs key_words credential_nouns (ground arith)

match_identity-resolvable_match_example : resolvable_match work_match ≡ true
match_identity-resolvable_match_example =
    match_identity-resolvable_match read_request bound_inputs work_match read_matched
