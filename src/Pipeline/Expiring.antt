-- ===== src/Pipeline/Expiring.antt =====
-- internal/core/pipeline/expire.go and settle.go: an expiry and the clearing of a memory make their calls
-- in their order.
use open_delo.Prelude.{ℕ, suc, String, ◌≡◌, refl, some, List, [], ◌∷◌}
use open_delo.Prelude.Int.{ℤ}
use open_delo.Approval.Items.{Action, Status, Approval}
use open_delo.Pipeline.Requests.{
  CapabilityRequest, Decision, RequestStatus, Event, EventType, EventOutcome,
}
use open_delo.Pipeline.Calls.{
  Answer, panicked, failed, done, Call, History, Run, audited, agent_disconnected,
  bound_leases_read, issued_leases_read, identity_read, memories_invalidated, identity_marked,
  approval_settled, approvals_due_read, decision_read, request_read, memory_read, memory_deleted,
}
use open_delo.Pipeline.Calls
use open_delo.Pipeline.Services.{Pipeline}
use open_delo.Pipeline.Protocol.{
  Phase, fresh, refused, erasing, after_event, may_advance, after_call, is_erasing, is_fresh,
}
use open_delo.Pipeline.Runs.{
  InTurn, Triple, Past, then_step, then_next, quiet_call, returned, lifted, weaken,
}
use open_delo.Pipeline.Turns.{quiet_clock}
use open_delo.Pipeline.Handling.{record_event}
use open_delo.Pipeline.Steps.{recorded, advanced}
use open_delo.Pipeline.Records.{clearing_event, plain_event}
use open_delo.Pipeline.Cascades.{
  close_due, expire, record_expiry, record_each, expire_approvals, clear_trust_memory,
}
use open_delo.Pipeline.Settling.{decode_scope, record_settlement, settlement_event}

module _ (p : Pipeline) where
  closed_one :
      (calls : List Call) (service : History → Answer Approval)
      → Triple
          (Past fresh calls)
          (Calls.call service (approval_settled Action.deny Status.expired))
          (λ r. Past fresh calls)
  unfolding after_call is_fresh
  closed_one calls service =
      quiet_call fresh calls service (approval_settled Action.deny Status.expired) (λ a. refl)

  close_due-Triple :
      (now : ℕ) (due : List Approval)
      → Triple (Past fresh []) (close_due p now due) (λ rs. Past fresh [])
  unfolding close_due
  close_due-Triple now [] = returned [] (λ history past. past)
  close_due-Triple now (waiting ∷ rest) =
      then_step (closed_one [] _)
        λ closed. then_step (close_due-Triple now rest) λ others. returned _ (λ history past. past)

  expire-Triple : (limit : ℤ) → Triple (Past fresh []) (expire p limit) (λ rs. Past fresh [])
  unfolding expire after_call
  expire-Triple limit = then_step (quiet_clock p fresh []) λ now.
      then_step (quiet_call fresh [] _ approvals_due_read (λ a. refl))
        λ due. close_due-Triple now due

  just_recorded :
      (s t : Phase) (e : Event)
      → after_event e.type e.lease_id s ≡ some t
      → Triple (Past s []) (record_event p e) (λ v. Past t [])
  unfolding Past
  just_recorded s t e turn = weaken (recorded p [] s t e turn) (λ v history past. (past.0, tt))

  expiry-Triple :
      (s : Phase) (item : Approval)
      → after_event EventType.approval_expired "" s ≡ some refused
      → ((a : Answer Decision) (id : String) → after_call (decision_read id a) s ≡ some s)
      → ((a : Answer CapabilityRequest) (id : String) → after_call (request_read id a) s ≡ some s)
      → Triple (Past s []) (record_expiry p item) (λ r. Past refused [])
  unfolding record_expiry record_settlement settlement_event may_advance Past
  expiry-Triple s item turn decisions requests =
      then_step (quiet_call s [] _ (decision_read item.decision_id) (λ a. decisions a _)) λ written.
        then_step
          (quiet_call s [] _ (request_read written.capability_request_id) (λ a. requests a _))
          λ request. then_step (lifted s [] (decode_scope p written.resolved_scope)) λ granted.
            then_next
              (just_recorded s refused
                (settlement_event request written granted item.id EventType.approval_expired
                  EventOutcome.blocked)
                turn)
              λ u.
                weaken (advanced p [] refused request RequestStatus.rejected refl)
                  (λ r history past. (past.0, tt))

  expiries-Triple :
      (items : List Approval)
      → Triple (Past refused []) (record_each p items) (λ n. Past refused [])
  unfolding record_each after_event after_call
  expiries-Triple [] = returned 0 (λ history past. past)
  expiries-Triple (item ∷ rest) =
      then_step (expiry-Triple refused item refl (λ a id. refl) (λ a id. refl)) λ advanced.
        then_step (expiries-Triple rest) λ closed. returned (suc closed) (λ history past. past)

  record_each-Triple :
      (items : List Approval) → Triple (Past fresh []) (record_each p items) (λ n. InTurn)
  unfolding record_each after_event after_call InTurn Past
  record_each-Triple [] = returned 0 (λ history past. (fresh, past.0))
  record_each-Triple (item ∷ rest) =
      then_step (expiry-Triple fresh item refl (λ a id. refl) (λ a id. refl)) λ advanced.
        then_step (expiries-Triple rest)
          λ closed. returned (suc closed) (λ history past. (refused, past.0))

  pub expire_approvals-Triple :
      (limit : ℤ) → Triple (Past fresh []) (expire_approvals p limit) (λ n. InTurn)
  unfolding expire_approvals
  expire_approvals-Triple limit = then_step (expire-Triple limit) record_each-Triple

  pub clear_trust_memory-Triple :
      (id operation : String)
      → Triple (Past fresh []) (clear_trust_memory p id operation) (λ u. InTurn)
  unfolding clear_trust_memory clearing_event plain_event after_call after_event is_erasing InTurn
      Past
  clear_trust_memory-Triple id operation =
      then_step (quiet_call fresh [] _ (memory_read id) (λ a. refl)) λ cleared.
        then_next (just_recorded fresh erasing (clearing_event operation cleared) refl) λ u.
          weaken (quiet_call erasing [] _ (memory_deleted id) (λ a. refl))
            (λ v history past. (erasing, past.0))
