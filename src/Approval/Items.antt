-- ===== src/Approval/Items.antt =====
-- internal/core/approval/approval.go, and `Behavior` of internal/core/trust/memory.go. A time is in
-- nanoseconds since the zero time.
use open_delo.Prelude.{ℕ, String, Bool, true, false, ◌==◌}

pub data Action : Type 0 where
  deny allow_once allow_until_task_end auto_allow_in_project always_ask : Action
  other : String → Action

pub data Status : Type 0 where
  pending approved rejected expired cancelled : Status
  other : String → Status

pub data Behavior : Type 0 where
  auto_allow always_ask : Behavior
  other : String → Behavior

pub record Approval : Type 0 where
  pub id : String
  pub decision_id : String
  pub action : Action
  pub status : Status
  pub expires_at : ℕ
  pub decided_at : ℕ
  pub created_at : ℕ
  pub updated_at : ℕ

-- Go's zero value.
abbrev pub zero_approval : Approval
zero_approval = record {
  id = "";
  decision_id = "";
  action = Action.other "";
  status = Status.other "";
  expires_at = 0;
  decided_at = 0;
  created_at = 0;
  updated_at = 0;
}

-- Equality of the texts.
unfoldable pub same_action : Action → Action → Bool
same_action Action.deny Action.deny = true
same_action Action.allow_once Action.allow_once = true
same_action Action.allow_until_task_end Action.allow_until_task_end = true
same_action Action.auto_allow_in_project Action.auto_allow_in_project = true
same_action Action.always_ask Action.always_ask = true
same_action (Action.other s) (Action.other t) = s == t
same_action _ _ = false

unfoldable pub is_expired : Status → Bool
is_expired Status.expired = true
is_expired _ = false
