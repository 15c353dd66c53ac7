-- ===== src/Approval/Settling.antt =====
-- internal/core/approval/manager.go: what an answer needs, and what it can bring about.
use open_delo.Prelude.{
  ◌≡◌, refl, subst, ◌↔◌, ◌⊎◌, inl, inr, true, false, none, some, arith, Option-cases,
}
use open_delo.Prelude.Int.{pos, leb_ℤ}
use open_delo.Platform.AppError.{invalid_request, conflict, Result, err, ok, Result-cases, is_ok}
use open_delo.Risk.Level.{Level, high, is_high}
use open_delo.Approval.Items.{Action, Status, Approval, same_action, is_expired}
use open_delo.Approval.Manager.{
  Settlement, SettleRequest, consequences, allows, actions, offered, required, is_strong,
  check_settle, settled_status, replay, settle,
}

-- What stands between an answer and its effect.
abbrev pub Confirmed : SettleRequest → Type 0
Confirmed q =
    ((is_strong q.requirement ≡ false) ⊎ (q.strong_auth_completed ≡ true))
    × (leb_ℤ (pos 1) q.confirmations ≡ true)
    × (leb_ℤ q.required_confirmations q.confirmations ≡ true)

offered_unknown : (level : Level) (a : Action) → consequences a ≡ none → offered level a ≡ false
unfolding consequences offered actions same_action
offered_unknown level (Action.other s) h = ground arith
offered_unknown level a h = ground arith

-- The checks pass exactly for an action that the risk level offers and that either allows nothing
-- or is confirmed: strongly where that is required, and at least once and as often as required.
pub check_settle_iff :
    (q : SettleRequest)
    → (is_ok (check_settle q) ≡ true)
      ↔ ((offered q.risk_level q.action ≡ true) × ((allows q.action ≡ false) ⊎ Confirmed q))
unfolding check_settle allows required
check_settle_iff q = elim (Option-cases (consequences q.action)) [
  | inl e ↦ let refused = offered_unknown q.risk_level q.action e in ground (arith, e, refused)
  | inr (s, e) ↦ ground (arith, e)
]

check_settle-ok :
    (q : SettleRequest) (s c : Settlement)
    → consequences q.action ≡ some c
    → check_settle q ≡ ok s
    → (s ≡ c) × (offered q.risk_level q.action ≡ true)
unfolding check_settle
check_settle-ok q s c e h = ground (arith, e, h)

check_settle_unknown :
    (q : SettleRequest) → consequences q.action ≡ none → check_settle q ≡ err invalid_request
unfolding check_settle
check_settle_unknown q e = rw (e, check_settle) refl

abbrev Bounded : Settlement → Type 0
Bounded s =
    (s.learn ≡ none)
    × ((s.allowed ≡ false)
        ⊎ (s.request_limit ≡ pos 1)
        ⊎ ((s.request_limit ≡ pos 20) × (s.session_bound ≡ true)))

consequences-high :
    (a : Action) (c : Settlement) → consequences a ≡ some c → offered high a ≡ true → Bounded c
unfolding consequences offered actions same_action is_high
consequences-high Action.deny c e h = ground arith
consequences-high Action.allow_once c e h = ground arith
consequences-high Action.allow_until_task_end c e h = ground arith
consequences-high Action.auto_allow_in_project c e h = ground arith
consequences-high Action.always_ask c e h = ground arith
consequences-high (Action.other s) c e h = ground arith

-- At high risk nothing is learned, and what is allowed is bounded: one request, or twenty bound to
-- the session.
pub check_settle-high :
    (q : SettleRequest) (s : Settlement)
    → q.risk_level ≡ high
    → check_settle q ≡ ok s
    → (s.learn ≡ none)
      × ((s.allowed ≡ false)
          ⊎ (s.request_limit ≡ pos 1)
          ⊎ ((s.request_limit ≡ pos 20) × (s.session_bound ≡ true)))
check_settle-high q s h checked = elim (Option-cases (consequences q.action)) [
  | inl e ↦ let refused = check_settle_unknown q e in ground (arith, refused, checked)
  | inr (c, e) ↦
      let (same, is_offered) = check_settle-ok q s c e checked in
      rw same (consequences-high q.action c e (subst (λ l. offered l q.action ≡ true) h is_offered))
]

check_settle-allowed :
    (q : SettleRequest) (c : Settlement) → check_settle q ≡ ok c → c.allowed ≡ allows q.action
unfolding check_settle allows
check_settle-allowed q c h = elim (Option-cases (consequences q.action)) [
  | inl e ↦ ground (arith, e, h)
  | inr (d, e) ↦ ground (arith, e, h)
]

-- Where the repository reports a conflict, `Settle` succeeds only as the replay of the same action
-- on an item that did not expire; what it allows is what that action allows.
pub settle_replay :
    (q : SettleRequest) (written : Action → Status → Result Approval) (reread : Result Approval)
    (s : Settlement)
    → ((status : Status) → written q.action status ≡ err conflict)
    → settle q written reread ≡ ok s
    → (reread ≡ ok s.approval)
      × (same_action s.approval.action q.action ≡ true)
      × (is_expired s.approval.status ≡ false)
      × (s.replayed ≡ true)
      × (s.allowed ≡ allows q.action)
unfolding settle replay
settle_replay q written reread s busy h = elim (Result-cases (check_settle q)) [
  | inr (code, e) ↦ ground (arith, e, h)
  | inl (c, e) ↦
      let taken = busy (settled_status c) in
      let same = check_settle-allowed q c e in
      elim (Result-cases reread) [
        | inr (code, e') ↦ ground (arith, e, e', taken, h)
        | inl (a, e') ↦ ground (arith, e, e', taken, same, h)
      ]
]
