-- ===== src/Pipeline/Answers.antt =====
-- internal/core/pipeline/settle.go: how `SettleApproval` ends, and with which calls.
use open_delo.Prelude.{
  ℕ, ◌≡◌, refl, sym, ◌∙◌, inl, inr, true, false, Option, none, some, List, [], ◌∷◌, Memᴰ, arith,
  ltb, if◌then◌else◌, Bool-cases, contradiction,
}
use open_delo.Platform.AppError.{Result, err, ok, approval_timeout}
use open_delo.Scope.Dimensions.{Scope}
use open_delo.Approval.Items.{Action, Behavior, Approval, same_action, is_expired}
use open_delo.Approval.Manager.{Settlement, SettleRequest, allows, check_settle}
use open_delo.Lease.Rows.{Lease}
use open_delo.Lease.Manager.{decode_grant}
use open_delo.Pipeline.Requests.{
  RequestStatus, CapabilityRequest, Decision, EventType, EventOutcome, succeeded, user_allowed,
}
use open_delo.Pipeline.Calls.{
  done, Call, clock_read, audited, lease_issued, request_advanced, approval_read, decision_read,
  request_read, issued_lease_read, memory_generated, History, lift, ◌>>=◌, ◌>>◌,
}
use open_delo.Pipeline.Services.{Pipeline}
use open_delo.Pipeline.Handling.{issue_one}
use open_delo.Pipeline.Settling.{
  SettleInput, SettleResult, settle_item, settlement_event, request_granted, learn_as, learn,
  first_result, record_settlement, check_window, lease_of_replay, replayed, grant, learn, reject,
  approve, apply_settlement, asked_of, after_settle, settle_approval,
}
use open_delo.Pipeline.Settled.{Answered, Answered-allowed, Answered-again, settled_item}
use open_delo.Pipeline.Protocol.{
  fresh, cleared, issuing, refused, after_event, may_advance, is_issuing, after_release, after_call,
}
use open_delo.Pipeline.Runs.{
  Triple, Past, then_step, then_next, one_call, quiet_call, no_call, returned, gave_up,
  lifted_value, given, given_some, quiet_attempt, branch,
}
use open_delo.Pipeline.Turns.{timed}
use open_delo.Pipeline.Steps.{recorded, advanced}

-- The item, its decision and its request are those that were read.
pub record OnRecord (input : SettleInput) (written : Decision) (request : CapabilityRequest)
    (calls : List Call) : Type 0 where
  pub item : Approval
  pub item_read : Memᴰ (approval_read input.approval_id (done item)) calls
  pub decision_of_item : Memᴰ (decision_read item.decision_id (done written)) calls
  pub request_of_decision : Memᴰ (request_read written.capability_request_id (done request)) calls

-- The window of the scope was open when the clock was read, where the answer allows.
Timely : Pipeline → Action → Decision → List Call → Type 0
Timely p action written calls =
    allows action ≡ true
    → (granted : Scope) × (t : ℕ) × (decode_grant p.codec written.resolved_scope ≡ ok granted)
      × (ltb t granted.expires_at ≡ true)
      × Memᴰ (clock_read t) calls

-- How an answer is carried out: again, as a rejection, or as a permission.
pub data Settled (p : Pipeline) (input : SettleInput) (r : SettleResult) (history : History)
    : Type 0 where
  repeated :
      (settlement : Settlement) (request : CapabilityRequest) (seen : List Call)
      → OnRecord input r.decision request seen
      → r.replayed ≡ true
      → same_action r.approval.action input.action ≡ true
      → is_expired r.approval.status ≡ false
      → r.memory ≡ none
      → Past fresh seen history
      → Settled p input r history
  rejected :
      (settlement : Settlement) (granted : Scope) (request : CapabilityRequest) (seen : List Call)
      → OnRecord input r.decision request seen
      → Answered (asked_of p input r.decision) settlement
      → settlement.allowed ≡ false
      → r.lease ≡ none
      → r.memory ≡ none
      → Past refused
          (request_advanced request.id request.status RequestStatus.rejected (done r.request)
            ∷ audited
                (settlement_event request r.decision granted settlement.approval.id EventType.denied
                  EventOutcome.blocked)
                (done tt)
            ∷ seen)
          history
      → Settled p input r history
  approved :
      (settlement : Settlement) (granted : Scope) (request : CapabilityRequest) (l : Lease) (t : ℕ)
      (seen : List Call)
      → OnRecord input r.decision request seen
      → Answered (asked_of p input r.decision) settlement
      → settlement.allowed ≡ true
      → decode_grant p.codec r.decision.resolved_scope ≡ ok granted
      → ltb t granted.expires_at ≡ true
      → Memᴰ (clock_read t) seen
      → r.lease ≡ some l
      → Past issuing
          (request_advanced request.id request.status RequestStatus.approved (done r.request)
            ∷ lease_issued (request_granted r.decision granted settlement) (done l)
            ∷ audited
                (settlement_event request r.decision granted settlement.approval.id user_allowed
                  succeeded)
                (done tt)
            ∷ seen)
          history
      → Settled p input r history

check_settle-allows :
    (q : SettleRequest) (c : Settlement) → check_settle q ≡ ok c → allows q.action ≡ c.allowed
unfolding check_settle allows
check_settle-allows q c h = ground (arith, h)

module _ (p : Pipeline) (input : SettleInput) (written : Decision) (request : CapabilityRequest)
    (calls : List Call) (read : OnRecord input written request calls) where
  -- What is known once the window was looked at.
  abbrev Opened : History → Type 0
  Opened history =
      (seen : List Call) × (Timely p input.action written seen
        × (OnRecord input written request seen × Past fresh seen history))

  later_read : (c : Call) → OnRecord input written request (c ∷ calls)
  later_read c = record {
    item = read.item;
    item_read = Memᴰ.tail read.item_read;
    decision_of_item = Memᴰ.tail read.decision_of_item;
    request_of_decision = Memᴰ.tail read.request_of_decision;
  }

  open_window :
      (granted : Scope) (now : ℕ)
      → decode_grant p.codec written.resolved_scope ≡ ok granted
      → Triple {Value = Unit {0}}
          (Past fresh (clock_read now ∷ calls))
          (lift (if ltb now granted.expires_at then ok tt else err approval_timeout))
          (λ v. Opened)
  unfolding Timely lift
  open_window granted now e = elim (Bool-cases (ltb now granted.expires_at)) [
    | inl still ↦ rw still (
        returned tt (λ history past. (
          clock_read now ∷ calls,
          (
            (λ allowed. (granted, now, e, still, Memᴰ.head refl)),
            (later_read (clock_read now), past),
          ),
        )))
    | inr shut ↦ rw shut (gave_up fresh (clock_read now ∷ calls) approval_timeout _)
  ]

  untimely : allows input.action ≡ false → Timely p input.action written calls
  unfolding Timely
  untimely a allowed = contradiction (ground (arith, a, allowed))

  in_window : Triple (Past fresh calls) (check_window p input.action written) (λ v. Opened)
  unfolding check_window
  in_window = elim (Bool-cases (allows input.action)) [
    | inl a ↦ rw a (
        then_step (lifted_value fresh calls _) (λ granted.
          given (λ e. then_step (timed p fresh calls) (λ now. open_window granted now e))))
    | inr a ↦ rw a (returned _ (λ history past. (calls, (untimely a, (read, past)))))
  ]

module _ (p : Pipeline) (input : SettleInput) where
  module _ (request : CapabilityRequest) (written : Decision) (settlement : Settlement)
      (seen : List Call) (answered : Answered (asked_of p input written) settlement)
      (read : OnRecord input written request seen) where
    again_end :
        (found : Result Lease)
        → settlement.replayed ≡ true
        → Triple
            (Past fresh seen)
            (lease_of_replay p (first_result request written settlement) found)
            (Settled p input)
    unfolding lease_of_replay asked_of
    again_end (ok issued) r = returned _ (λ history past.
        let (same, live) = Answered-again (asked_of p input written) settlement answered r in
        repeated settlement request seen read r same live refl past)
    again_end (err code) r = gave_up fresh seen _ (Settled p input)

    replayed-Settled :
        settlement.replayed ≡ true
        → Triple
            (Past fresh seen)
            (replayed p (first_result request written settlement) settlement)
            (Settled p input)
    unfolding replayed after_call asked_of
    replayed-Settled r =
        branch settlement.allowed
          (λ a.
            then_step
              (quiet_attempt fresh seen _ (issued_lease_read settlement.approval.id) (λ a. refl))
              (λ found. again_end found r))
          (λ a. returned _ (λ history past.
            let (same, live) = Answered-again (asked_of p input written) settlement answered r in
            repeated settlement request seen read r same live refl past))

    reject-Settled :
        (granted : Scope)
        → settlement.allowed ≡ false
        → Triple
            (Past fresh seen)
            (reject p (first_result request written settlement) settlement request written granted)
            (Settled p input)
    unfolding reject record_settlement settlement_event after_event may_advance
    reject-Settled granted a = then_next (recorded p seen fresh refused _ refl) (λ v.
        then_step (advanced p _ refused request RequestStatus.rejected refl) (λ moved.
          returned _ (λ history past.
            rejected settlement granted request seen read answered a refl refl past)))

    learned_as :
        (granted : Scope) (calls : List Call) (behavior : Option Behavior)
        → Triple
            (Past issuing calls)
            (learn_as p written granted settlement behavior)
            (λ v. Past issuing calls)
    unfolding learn_as after_call is_issuing
    learned_as granted calls none = no_call (λ v. Past issuing calls) none
    learned_as granted calls (some behavior) =
        then_step (quiet_call issuing calls _ (memory_generated _) (λ a. refl))
          (λ memory. no_call (λ v. Past issuing calls) _)

    window_open :
        (granted : Scope)
        → Timely p input.action written seen
        → decode_grant p.codec written.resolved_scope ≡ ok granted
        → settlement.allowed ≡ true
        → (t : ℕ) × (ltb t granted.expires_at ≡ true) × Memᴰ (clock_read t) seen
    unfolding Timely asked_of
    window_open granted timely e a =
        let (consequence, passed, allowed) =
          Answered-allowed (asked_of p input written) settlement answered in
        let allowing = check_settle-allows (asked_of p input written) consequence passed in
        let (granted', t, e', still, at) = timely (allowing ∙ sym allowed ∙ a) in
        let one : granted' ≡ granted = ground (arith, e, e') in (t, rw (sym one) still, at)

    approve-Settled :
        (granted : Scope)
        → Timely p input.action written seen
        → decode_grant p.codec written.resolved_scope ≡ ok granted
        → settlement.allowed ≡ true
        → Triple
            (Past fresh seen)
            (approve p (first_result request written settlement) settlement request written granted)
            (Settled p input)
    unfolding approve grant learn record_settlement issue_one settlement_event after_event
        after_call after_release may_advance
    approve-Settled granted timely e a =
        then_step
          (then_next (recorded p seen fresh cleared _ refl) (λ v.
            one_call cleared issuing _ _ (lease_issued (request_granted written granted settlement))
              (λ a. (issuing, refl)) (λ v. refl)))
          (λ l. then_step (learned_as granted _ settlement.learn) (λ memory.
            then_step (advanced p _ issuing request RequestStatus.approved refl) (λ moved.
              returned _ (λ history past.
                let (t, still, at) = window_open granted timely e a in
                approved settlement granted request l t seen read answered a e still at refl
                  past))))

    after_settle-Settled :
        Timely p input.action written seen
        → Triple (Past fresh seen) (after_settle p request written settlement) (Settled p input)
    unfolding after_settle apply_settlement
    after_settle-Settled timely = branch settlement.replayed replayed-Settled (λ first.
        then_step (lifted_value fresh seen _) (λ granted. given (λ e.
          branch settlement.allowed (λ a. approve-Settled granted timely e a)
            (λ a. reject-Settled granted a))))

  abbrev reads : Approval → Decision → CapabilityRequest → List Call
  reads item written request =
      request_read written.capability_request_id (done request)
      ∷ decision_read item.decision_id (done written)
      ∷ approval_read input.approval_id (done item)
      ∷ []

  read_all :
      (item : Approval) (written : Decision) (request : CapabilityRequest)
      → Triple
          (Past fresh (reads item written request))
          (check_window p input.action written
            >> (settle_item p (asked_of p input written) >>= after_settle p request written))
          (Settled p input)
  read_all item written request =
      then_next
        (in_window p input written request (reads item written request) (record {
          item = item;
          item_read = Memᴰ.tail (Memᴰ.tail (Memᴰ.head refl));
          decision_of_item = Memᴰ.tail (Memᴰ.head refl);
          request_of_decision = Memᴰ.head refl;
        }))
        (λ v. given_some (λ seen. given (λ timely. given (λ read.
          then_step (settled_item p seen (asked_of p input written)) (λ settlement.
            given (λ answered.
              after_settle-Settled request written settlement seen answered read timely))))))

  pub settled : Triple (Past fresh []) (settle_approval p input) (Settled p input)
  unfolding settle_approval after_call
  settled =
      then_step
        (one_call fresh fresh [] _ (approval_read input.approval_id) (λ a. (fresh, refl))
          (λ v. refl))
        (λ item.
          then_step
            (one_call fresh fresh _ _ (decision_read item.decision_id) (λ a. (fresh, refl))
              (λ v. refl))
            (λ written.
              then_step
                (one_call fresh fresh _ _ (request_read written.capability_request_id)
                  (λ a. (fresh, refl)) (λ v. refl))
                (λ request. read_all item written request)))
