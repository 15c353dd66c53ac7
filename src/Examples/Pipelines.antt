-- ===== src/Examples/Pipelines.antt =====
-- Runs of internal/core/pipeline with services that answer everything.
use open_delo.Prelude.{take, drop, any, ◌≡◌, refl, true, false, none, some, [], ◌∷◌, ◌++◌, Memᴰ}
use open_delo.Prelude.Int.{pos}
use open_delo.Risk.Level.{is_high, is_low}
use open_delo.Decision.Verdicts.{auto_allow}
use open_delo.Decision.Engine.{
  asks_always, automatable, branches, cautious_auto_allow, matched_grant, matched_lease, mode_rules,
  required_confirmations, rule_learned_medium, rule_low_risk, walk_branches, requires_confirmation,
  fail_closed_outcome, decide,
}
use open_delo.Decision.FailClosed.{first_tripped, self_checks, self_detected, policy_engine_failure}
use open_delo.Approval.Items.{is_expired, same_action, Action}
use open_delo.Lease.Rows.{text_of}
use open_delo.Lease.Manager.{decode_grant, wrapped, IssueRequest}
use open_delo.Scope.Resolver.{check_input, converge}
use open_delo.Intent.Catalog.{lookup_tool, tool_for}
use open_delo.Intent.Resolver.{
  collect, extract_resource, field_text, flags, intent_of, lookup, resolve_environment,
}
use open_delo.Approval.Manager.{
  actions, allows, check_settle, consequences, is_strong, offered, replay, required, settled_status,
}
use open_delo.Matcher.Matching.{by_id, match_identity}
use open_delo.Risk.Engine.{apply_rules, evaluate, rules}
use open_delo.Scope.Dimensions.{
  check_dimensions, dimension_checks, is_valid, level_rank, valid_environment, valid_level,
}
use open_delo.Decision.Forbidden.{classify_forbidden, mentions_any, segments_of}
use open_delo.Pipeline.Requests.{Decision}
use open_delo.Pipeline.Calls.{
  Answer, panicked, failed, done, lease_issued, History, return, fail, lift, attempt, call, ◌>>=◌,
  ◌>>◌, recover,
}
use open_delo.Pipeline.Inputs.{passed, Resolved, if_passed, ◌>>?◌}
use open_delo.Pipeline.Resolving.{
  scope_input, identities_of, to_grants, is_beyond, beyond_history, factors, learned, covering,
  standing, matched_identity, converged_scope, input_of, resolve_request,
}
use open_delo.Pipeline.Handling.{
  Handled, resource_of, advance, record_decision, write, issue_one, release, issue_allowed,
  conclude_request, fail_closed, handle,
}
use open_delo.Pipeline.Settling.{
  SettleInput, SettleResult, settlement_event, limited, request_granted, to_learn, settle_again,
  settle_end, settle_item, record_settlement, check_window, replayed, grant, learn_as, learn,
  reject, approve, apply_settlement, asked_of, after_settle, settle_approval,
}
use open_delo.Pipeline.Order.{is_release, permits}
use open_delo.Pipeline.Steps.{taken}
use open_delo.Pipeline.Resolution.{Consistent}
use open_delo.Pipeline.Endings.{Concluded, handle-Concluded}
use open_delo.Pipeline.Safety.{handle-permits, handle-lease, settle_approval-permits}
use open_delo.Examples.Samples.{read_scope, ascii}
use open_delo.Examples.Services.{asked, lease_for, item, put, pipeline, inputs}

abbrev value_or {ℓ} : {A : Type ℓ} → A → Answer A → A
value_or a panicked = a
value_or a (failed code) = a
value_or a (done v) = v

-- The read is allowed without asking.
abbrev ran : History × Answer Handled
ran = handle pipeline inputs []

abbrev unhandled : Handled
unhandled = record {
  request = asked;
  decision = none;
  outcome = fail_closed_outcome policy_engine_failure;
  approval = none;
  lease = none;
}

abbrev handled : Handled
handled = value_or unhandled ran.1

abbrev pub issued : IssueRequest
issued = record {
  granted = record read_scope { resource_key = "calendar=primary" };
  approval_id = "";
  source_memory_id = "";
  is_session_bound = false;
}

ran_through :
    (handle pipeline inputs [] ≡ (ran.0, done handled))
    × (handled.lease ≡ some (lease_for issued))
    × (ran.0 ≡ take 2 ran.0 ++ lease_issued issued (done (lease_for issued)) ∷ drop 3 ran.0)
unfolding field_text collect flags extract_resource resolve_environment lookup intent_of
    open_delo.Intent.Resolver.resolve lookup_tool tool_for open_delo.Intent.Structured.validate
    by_id match_identity check_input converge open_delo.Scope.Resolver.resolve dimension_checks
    check_dimensions open_delo.Scope.Dimensions.validate is_valid is_low is_high rules apply_rules
    evaluate mentions_any segments_of classify_forbidden self_checks first_tripped self_detected
    cautious_auto_allow mode_rules matched_grant matched_lease asks_always automatable rule_low_risk
    rule_learned_medium branches open_delo.Decision.Engine.blocked walk_branches decide wrapped fail
    lift attempt call ◌>>=◌ ◌>>◌ recover if_passed ◌>>?◌ identities_of to_grants is_beyond
    beyond_history factors learned covering standing matched_identity converged_scope input_of
    resolve_request resource_of advance record_decision write issue_one release issue_allowed
    conclude_request fail_closed handle text_of scope_input
ran_through = (refl, refl, refl)

handle-Concluded_example : Concluded pipeline inputs handled ran.0
handle-Concluded_example = handle-Concluded pipeline inputs handled ran.0 ran_through.0

handle-permits_example :
    (any permits (drop 3 ran.0) ≡ true) × (any is_release (drop 3 ran.0) ≡ false)
unfolding is_release
handle-permits_example =
    handle-permits pipeline inputs (take 2 ran.0) (drop 3 ran.0)
      (lease_issued issued (done (lease_for issued))) ran_through.2 refl

handle-lease_example :
    (out : Resolved) × (written : Decision) × ((decide ascii out.input).verdict ≡ auto_allow)
    × Consistent pipeline inputs (passed out)
    × Memᴰ
        (taken out written (text_of (decide ascii out.input).matched_lease_id) (lease_for issued))
        ran.0
handle-lease_example =
    handle-lease pipeline inputs handled ran.0 (lease_for issued) ran_through.0 ran_through.1

-- The user allows the request once.
abbrev answer : SettleInput
answer = record {
  approval_id = "approval-1";
  action = Action.allow_once;
  strong_auth_completed = false;
  confirmations = pos 1;
}

abbrev answered : History × Answer SettleResult
answered = settle_approval pipeline answer []

abbrev unsettled : SettleResult
unsettled = record {
  approval = item;
  decision = put;
  request = asked;
  lease = none;
  memory = none;
  replayed = false;
}

abbrev settlement : SettleResult
settlement = value_or unsettled answered.1

abbrev allowed : IssueRequest
allowed = record issued { granted = read_scope; approval_id = "approval-1" }

answered_through :
    (settle_approval pipeline answer [] ≡ (answered.0, done settlement))
    × (answered.0
        ≡ take 2 answered.0 ++ lease_issued allowed (done (lease_for allowed)) ∷ drop 3 answered.0)
unfolding valid_environment level_rank valid_level dimension_checks check_dimensions
    open_delo.Scope.Dimensions.validate is_valid is_high required_confirmations wrapped decode_grant
    same_action is_expired consequences allows actions offered required is_strong check_settle
    settled_status replay return fail lift attempt call ◌>>=◌ ◌>>◌ resource_of advance issue_one
    settlement_event limited request_granted to_learn settle_again settle_end settle_item
    record_settlement check_window replayed grant learn_as learn reject approve apply_settlement
    asked_of after_settle settle_approval
answered_through = (refl, refl)

settle_approval-permits_example :
    (any permits (drop 3 answered.0) ≡ true) × (any is_release (drop 3 answered.0) ≡ false)
unfolding is_release
settle_approval-permits_example =
    settle_approval-permits pipeline answer (take 2 answered.0) (drop 3 answered.0)
      (lease_issued allowed (done (lease_for allowed))) answered_through.1 refl
