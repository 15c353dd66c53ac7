-- ===== src/Approval/Manager.antt =====
-- internal/core/approval/manager.go: the five answers, their checks and their consequences. What
-- the repository returns is an argument.
use open_delo.Prelude.{
  any, String, Bool, true, false, ◌&&◌, not, Option, none, some, List, [], ◌∷◌, ◌++◌, if◌then◌else◌,
}
use open_delo.Prelude.Int.{ℤ, pos, leb_ℤ}
use open_delo.Platform.AppError.{
  Code, invalid_request, unauthenticated, forbidden, conflict, Result, err, ok, ensure, ◌>>=◌, ◌>>◌,
}
use open_delo.Risk.Level.{Level, is_high}
use open_delo.Scope.Resolver.{task_request_limit}
use open_delo.Decision.Verdicts.{ApprovalRequirement, strong_auth}
use open_delo.Approval.Items.{
  Action, Status, Behavior, Approval, zero_approval, same_action, is_expired,
}

-- No behavior to learn is `none`.
pub record Settlement : Type 0 where
  pub approval : Approval
  pub allowed : Bool
  pub request_limit : ℤ
  pub session_bound : Bool
  pub learn : Option Behavior
  pub replayed : Bool

pub record SettleRequest : Type 0 where
  pub approval_id : String
  pub action : Action
  pub risk_level : Level
  pub strong_auth_completed : Bool
  pub requirement : ApprovalRequirement
  pub required_confirmations : ℤ
  pub confirmations : ℤ

-- Go's zero value.
abbrev pub nothing_settled : Settlement
nothing_settled = record {
  approval = zero_approval;
  allowed = false;
  request_limit = pos 0;
  session_bound = false;
  learn = none;
  replayed = false;
}

-- The table; an action that is no key has none.
unfoldable pub consequences : Action → Option Settlement
consequences Action.deny = some nothing_settled
consequences Action.allow_once =
    some (record nothing_settled { allowed = true; request_limit = pos 1 })
consequences Action.allow_until_task_end = some (record nothing_settled {
  allowed = true;
  session_bound = true;
  request_limit = task_request_limit;
})
consequences Action.auto_allow_in_project =
    some (record nothing_settled { allowed = true; learn = some Behavior.auto_allow })
consequences Action.always_ask =
    some (record nothing_settled { allowed = true; learn = some Behavior.always_ask })
consequences (Action.other _) = none

unfoldable pub allows : Action → Bool
unfolding consequences
allows action = elim (consequences action) [ none ↦ false | some s ↦ s.allowed ]

unfoldable pub actions : Level → List Action
unfolding is_high
actions level =
    let always = Action.deny ∷ Action.allow_once ∷ Action.allow_until_task_end ∷ [] in
    if is_high level
    then always
    else always ++ Action.auto_allow_in_project ∷ Action.always_ask ∷ []

unfoldable pub offered : Level → Action → Bool
unfolding actions same_action
offered level action = any (λ available. same_action available action) (actions level)

unfoldable pub required : ℤ → ℤ
required count = if leb_ℤ (pos 1) count then count else pos 1

unfoldable pub is_strong : ApprovalRequirement → Bool
is_strong strong_auth = true
is_strong _ = false

unfoldable pub check_settle : SettleRequest → Result Settlement
check_settle q = elim (consequences q.action) [
  | none ↦ err invalid_request
  | some consequence ↦
      if not (offered q.risk_level q.action)
      then err forbidden
      else if not consequence.allowed
      then ok consequence
      else if is_strong q.requirement && not q.strong_auth_completed
      then err unauthenticated
      else if not (leb_ℤ (required q.required_confirmations) q.confirmations)
      then err invalid_request
      else ok consequence
]

-- `StatusApproved` or `StatusRejected`, what `Settle` writes.
unfoldable pub settled_status : Settlement → Status
settled_status consequence = if consequence.allowed then Status.approved else Status.rejected

-- `reread` is what `ApprovalByID` returns.
unfoldable pub replay : SettleRequest → Settlement → Result Approval → Result Settlement
unfolding same_action is_expired
replay q consequence reread = do
  settled ← reread
  ensure (same_action settled.action q.action && not (is_expired settled.status)) conflict
  ok (record consequence { approval = settled; replayed = true })

abbrev pub is_conflict : Code → Bool
is_conflict conflict = true
is_conflict _ = false

-- `written` is what the repository's `Settle` returns for the action and the status.
unfoldable pub settle :
    SettleRequest → (Action → Status → Result Approval) → Result Approval → Result Settlement
unfolding settled_status
settle q written reread = do
  consequence ← check_settle q
  elim (written q.action (settled_status consequence)) [
    | ok settled ↦ ok (record consequence { approval = settled })
    | err code ↦ if is_conflict code then replay q consequence reread else err code
  ]
