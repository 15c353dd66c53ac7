-- ===== src/Decision/Verdicts.antt =====
-- internal/core/decision/decision.go: verdicts and approval requirements.
pub data Verdict : Type 0 where
  auto_allow require_approval deny : Verdict

pub data ApprovalRequirement : Type 0 where
  unneeded standard strong_auth : ApprovalRequirement
