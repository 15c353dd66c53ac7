-- ===== src/Examples/Approvals.antt =====
-- Runs of internal/core/approval on concrete inputs.
use open_delo.Prelude.{◌≡◌, refl, ◌⊎◌, true, false, none}
use open_delo.Prelude.Int.{pos}
use open_delo.Platform.AppError.{conflict, Result, err, ok}
use open_delo.Risk.Level.{high, is_high}
use open_delo.Decision.Verdicts.{strong_auth}
use open_delo.Approval.Items.{Action, Status, Approval, zero_approval, same_action, is_expired}
use open_delo.Approval.Manager.{
  Settlement, SettleRequest, nothing_settled, consequences, actions, offered, required, is_strong,
  check_settle, settled_status, replay, settle,
}
use open_delo.Approval.Settling.{check_settle-high}

abbrev risky_answer : SettleRequest
risky_answer = record {
  approval_id = "approval-1";
  action = Action.allow_once;
  risk_level = high;
  strong_auth_completed = true;
  requirement = strong_auth;
  required_confirmations = pos 2;
  confirmations = pos 2;
}

abbrev once : Settlement
once = record nothing_settled { allowed = true; request_limit = pos 1 }

answer_passes : check_settle risky_answer ≡ ok once
unfolding check_settle consequences offered actions same_action is_high is_strong required
answer_passes = refl

check_settle-high_example :
    (once.learn ≡ none)
    × ((once.allowed ≡ false)
        ⊎ (once.request_limit ≡ pos 1)
        ⊎ ((once.request_limit ≡ pos 20) × (once.session_bound ≡ true)))
check_settle-high_example = check_settle-high risky_answer once refl answer_passes

-- The item as the first of two equal answers left it.
abbrev answered : Approval
answered = record zero_approval {
  id = "approval-1";
  decision_id = "decision-1";
  action = Action.allow_once;
  status = Status.approved;
  decided_at = 7;
}

abbrev refuse : Action → Status → Result Approval
refuse action status = err conflict

replayed_once :
    settle risky_answer refuse (ok answered)
    ≡ ok (record once { approval = answered; replayed = true })
unfolding settle settled_status replay check_settle consequences offered actions same_action
    is_expired is_high is_strong required
replayed_once = refl
