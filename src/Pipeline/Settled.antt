-- ===== src/Pipeline/Settled.antt =====
-- internal/core/pipeline/settle.go: what an answer of the user brings about, and in which order.
use open_delo.Prelude.{◌≡◌, refl, ap, inl, inr, true, false, List, arith, Bool-cases, contradiction}
use open_delo.Platform.AppError.{Code, Result, err, ok}
use open_delo.Approval.Items.{Approval, same_action, is_expired}
use open_delo.Approval.Manager.{
  Settlement, SettleRequest, check_settle, consequences, settled_status, replay, is_conflict,
}
use open_delo.Pipeline.Calls.{Call, approval_read, approval_settled}
use open_delo.Pipeline.Services.{Pipeline}
use open_delo.Pipeline.Settling.{settle_again, settle_end, settle_item}
use open_delo.Pipeline.Protocol.{fresh, is_fresh, after_call}
use open_delo.Pipeline.Runs.{
  Triple, Past, then_step, returned, gave_up, lifted_value, given, weaken, quiet_attempt,
}
use open_delo.Pipeline.Turns.{quiet_clock}

-- What `Settle` of the approvals returns: the consequence of an answer that passed the checks, for
-- an item, at first, or again where the item has that answer already.
pub data Answered (q : SettleRequest) (settlement : Settlement) : Type 0 where
  at_first :
      (consequence : Settlement) (item : Approval)
      → check_settle q ≡ ok consequence
      → settlement ≡ record consequence { approval = item }
      → Answered q settlement
  again :
      (consequence : Settlement) (item : Approval)
      → check_settle q ≡ ok consequence
      → same_action item.action q.action ≡ true
      → is_expired item.status ≡ false
      → settlement ≡ record consequence { approval = item; replayed = true }
      → Answered q settlement

pub Answered-allowed :
    (q : SettleRequest) (settlement : Settlement)
    → Answered q settlement
    → (consequence : Settlement) × (check_settle q ≡ ok consequence)
      × (settlement.allowed ≡ consequence.allowed)
Answered-allowed q settlement (at_first c item e same) = (c, e, ap (λ x. x.allowed) same)
Answered-allowed q settlement (again c item e action live same) = (c, e, ap (λ x. x.allowed) same)

check_settle-first :
    (q : SettleRequest) (c : Settlement) → check_settle q ≡ ok c → c.replayed ≡ false
unfolding check_settle consequences
check_settle-first q c h = ground (arith, h)

-- A replay is of the same action.
pub Answered-again :
    (q : SettleRequest) (settlement : Settlement)
    → Answered q settlement
    → settlement.replayed ≡ true
    → (same_action settlement.approval.action q.action ≡ true)
      × (is_expired settlement.approval.status ≡ false)
Answered-again q settlement (at_first c item e same) r =
    let not_yet = check_settle-first q c e in
    let kept = ap (λ x. x.replayed) same in contradiction (ground (arith, not_yet, kept, r))
Answered-again q settlement (again c item e action live same) r =
    let at = ap (λ x. x.approval) same in
    (rw (ap (λ x. x.action) at) action, rw (ap (λ x. x.status) at) live)

replay-Answered :
    (q : SettleRequest) (consequence settlement : Settlement) (reread : Result Approval)
    → check_settle q ≡ ok consequence
    → replay q consequence reread ≡ ok settlement
    → Answered q settlement
unfolding replay
replay-Answered q consequence settlement (err code) e h = contradiction (ground (arith, h))
replay-Answered q consequence settlement (ok item) e h =
    again consequence item e (ground (arith, h)) (ground (arith, h)) (ground (arith, h))

module _ (p : Pipeline) (calls : List Call) where
  settled_again :
      (q : SettleRequest) (consequence : Settlement) (code : Code)
      → check_settle q ≡ ok consequence
      → Triple
          (Past fresh calls)
          (settle_again p q consequence code)
          (λ settlement history. Answered q settlement × Past fresh calls history)
  unfolding settle_again after_call
  settled_again q consequence code e = elim (Bool-cases (is_conflict code)) [
    | inl c ↦ rw c (
        then_step (quiet_attempt fresh calls _ (approval_read q.approval_id) (λ a. refl)) (λ reread.
          weaken (lifted_value fresh calls (replay q consequence reread))
            (λ settlement history fact.
              (replay-Answered q consequence settlement reread e fact.0, fact.1))))
    | inr c ↦ rw c (gave_up fresh calls code _)
  ]

  settled_end :
      (q : SettleRequest) (consequence : Settlement) (written : Result Approval)
      → check_settle q ≡ ok consequence
      → Triple
          (Past fresh calls)
          (settle_end p q consequence written)
          (λ settlement history. Answered q settlement × Past fresh calls history)
  unfolding settle_end
  settled_end q consequence (ok settled) e =
      returned _ (λ history past. (at_first consequence settled e refl, past))
  settled_end q consequence (err code) e = settled_again q consequence code e

  pub settled_item :
      (q : SettleRequest)
      → Triple
          (Past fresh calls)
          (settle_item p q)
          (λ settlement history. Answered q settlement × Past fresh calls history)
  unfolding settle_item after_call is_fresh
  settled_item q = then_step (lifted_value fresh calls (check_settle q)) (λ consequence. given (λ e.
      then_step (quiet_clock p fresh calls) (λ now.
        then_step
          (quiet_attempt fresh calls _ (approval_settled q.action (settled_status consequence))
            (λ a. refl))
          (λ written. settled_end q consequence written e))))
