-- ===== src/Pipeline/Endings.antt =====
-- internal/core/pipeline/pipeline.go: how `Handle` ends, and with which calls.
use open_delo.Prelude.{
  ◌≡◌, refl, sym, subst, inl, inr, true, ◌||◌, Option, none, some, List, [], ◌∷◌, ◌==◌, Bool-cases,
}
use open_delo.Platform.AppError.{invalid_request}
use open_delo.Decision.Verdicts.{Verdict, auto_allow, require_approval, deny}
use open_delo.Decision.FailClosed.{Blocker, policy_engine_failure}
use open_delo.Decision.Engine.{Outcome, decide, fail_closed_outcome}
use open_delo.Approval.Items.{Approval}
use open_delo.Lease.Rows.{text_of, Lease}
use open_delo.Pipeline.Requests.{RequestStatus, Decision, EventType, EventOutcome, succeeded}
use open_delo.Pipeline.Calls.{
  Answer, panicked, done, Call, decision_written, audited, approval_opened, request_advanced,
  History,
}
use open_delo.Pipeline.Services.{Pipeline}
use open_delo.Pipeline.Inputs.{Inputs, Resolved, Step, blocked, passed}
use open_delo.Pipeline.Handling.{
  Handled, event_of, error_event, finish, carry_out, conclude_request, fail_closed, decide_on,
  handle_body, handle,
}
use open_delo.Pipeline.Protocol.{
  Phase, fresh, issuing, refused, after_event, may_advance, is_refused, after_call, phase,
}
use open_delo.Pipeline.Runs.{
  Triple, Ends, Past, then_step, then_next, one_call, returned, gave_up, weaken, recovered,
  strengthen,
}
use open_delo.Pipeline.Resolution.{Failed, Consistent}
use open_delo.Pipeline.Turns.{resolve_request_quiet}
use open_delo.Pipeline.Steps.{taken, recorded, advanced, decided, denial, released}

-- The request has moved on to a status.
abbrev moved : Inputs → RequestStatus → Handled → Call
moved inputs to r = request_advanced inputs.request.id inputs.request.status to (done r.request)

-- The end of a run with a verdict: what it returns, and the calls that it made after the decision
-- was written.
unfoldable pub Ended :
    Inputs → Resolved → Outcome → Decision → List Call → Verdict → Handled → History → Type 0
Ended inputs out outcome written calls deny r history =
    (r ≡ record {
      request = r.request;
      decision = some written;
      outcome = outcome;
      approval = none;
      lease = none;
    })
    × Past refused
        (moved inputs RequestStatus.denied r
          ∷ audited (event_of inputs out written EventType.denied EventOutcome.blocked) (done tt)
          ∷ calls)
        history
Ended inputs out outcome written calls require_approval r history =
    (item : Approval) × (r ≡ record {
      request = r.request;
      decision = some written;
      outcome = outcome;
      approval = some item;
      lease = none;
    })
    × Past refused
        (moved inputs RequestStatus.awaiting_approval r
          ∷ approval_opened written.id (done item)
          ∷ audited (event_of inputs out written EventType.denied EventOutcome.blocked) (done tt)
          ∷ calls)
        history
Ended inputs out outcome written calls auto_allow r history =
    (l : Lease) × (r ≡ record {
      request = r.request;
      decision = some written;
      outcome = outcome;
      approval = none;
      lease = some l;
    })
    × Past issuing
        (moved inputs RequestStatus.auto_allowed r
          ∷ taken out written (text_of outcome.matched_lease_id) l
          ∷ audited (event_of inputs out written EventType.auto_allowed succeeded) (done tt)
          ∷ calls)
        history

-- Why a request is refused without a decision: a step before the decision failed, or the run panicked.
pub data Cause (p : Pipeline) (inputs : Inputs) (b : Blocker) : Type 0 where
  step_failed : Failed p inputs b → Cause p inputs b
  run_panicked :
      (left : History)
      → handle_body p inputs [] ≡ (left, panicked)
      → b ≡ policy_engine_failure
      → Cause p inputs b

-- How a request is answered: it is refused for a cause, or the decision engine judged what was
-- resolved and its verdict is carried out.
pub data Concluded (p : Pipeline) (inputs : Inputs) (r : Handled) (history : History) : Type 0 where
  closed :
      (b : Blocker)
      → Cause p inputs b
      → r ≡ record {
        request = r.request;
        decision = none;
        outcome = fail_closed_outcome b;
        approval = none;
        lease = none;
      }
      → Past refused
          (moved inputs RequestStatus.denied r ∷ audited (error_event inputs b) (done tt) ∷ [])
          history
      → Concluded p inputs r history
  judged :
      (out : Resolved) (written d : Decision)
      → Consistent p inputs (passed out)
      → d.verdict ≡ (decide p.letters out.input).verdict
      → Ended inputs out
          (decide p.letters out.input)
          written
          (decision_written d (done written) ∷ [])
          (decide p.letters out.input).verdict
          r
          history
      → Concluded p inputs r history

pub at_start : Past fresh [] []
unfolding Past phase
at_start = (refl, tt)

module _ (p : Pipeline) (inputs : Inputs) where
  finished :
      (s : Phase) (calls : List Call) (outcome : Outcome) (written : Decision)
      (approval : Option Approval) (lease : Option Lease) (to : RequestStatus)
      → may_advance to s ≡ true
      → Triple (Past s calls) (finish p inputs outcome written approval lease to) (λ r history.
        (r ≡ record {
          request = r.request;
          decision = some written;
          outcome = outcome;
          approval = approval;
          lease = lease;
        })
        × Past s (moved inputs to r ∷ calls) history)
  unfolding finish
  finished s calls outcome written approval lease to turn =
      then_step (advanced p calls s inputs.request to turn)
        (λ request. returned _ (λ history past. (refl, past)))

  carried_out :
      (calls : List Call) (out : Resolved) (outcome : Outcome) (written : Decision) (v : Verdict)
      → Triple
          (Past fresh calls)
          (carry_out p inputs out outcome written v)
          (Ended inputs out outcome written calls v)
  unfolding carry_out Ended may_advance after_call is_refused
  carried_out calls out outcome written deny =
      then_next (denial p calls inputs out written)
        (λ v. finished refused _ outcome written none none RequestStatus.denied refl)
  carried_out calls out outcome written require_approval =
      then_next (denial p calls inputs out written) (λ v.
        then_step
          (one_call refused refused _ _ (approval_opened written.id) (λ a. (refused, refl))
            (λ a. refl))
          (λ item.
            weaken
              (finished refused _ outcome written (some item) none RequestStatus.awaiting_approval
                refl)
              (λ r history e. (item, e.0, e.1))))
  carried_out calls out outcome written auto_allow =
      then_step (released p calls inputs out written outcome) (λ l.
        weaken (finished issuing _ outcome written none (some l) RequestStatus.auto_allowed refl)
          (λ r history e. (l, e.0, e.1)))

  closed_down :
      (b : Blocker) (s : Phase)
      → Cause p inputs b
      → Triple (Past s []) (fail_closed p inputs b) (Concluded p inputs)
  unfolding fail_closed after_event error_event may_advance
  closed_down b s cause = then_next (recorded p [] s refused (error_event inputs b) refl) (λ v.
      then_step (advanced p _ refused inputs.request RequestStatus.denied refl)
        (λ request. returned _ (λ history past. closed b cause refl past)))

  concluded :
      (out : Resolved)
      → Consistent p inputs (passed out)
      → Triple
          (Past fresh [])
          (conclude_request p inputs out (decide p.letters out.input))
          (Concluded p inputs)
  unfolding conclude_request
  concluded out fits = then_step (decided p [] inputs out (decide p.letters out.input)) (λ written.
      record {
        ends = λ history given.
            let (d, same, past) = given in
            let end = carried_out _ out (decide p.letters out.input) written _ in
            (weaken end (λ r later e. judged out written d fits same e)).ends history past;
      })

  decided_on :
      (step : Step Resolved)
      → Triple
          (λ history. Consistent p inputs step × Past fresh [] history)
          (decide_on p inputs step)
          (Concluded p inputs)
  unfolding decide_on Consistent
  decided_on (blocked b) = record {
    ends = λ history given. (closed_down b fresh (step_failed given.0)).ends history given.1;
  }
  decided_on (passed out) = record {
    ends = λ history given. (concluded out given.0).ends history given.1;
  }

  body-Concluded : Triple (Past fresh []) (handle_body p inputs) (Concluded p inputs)
  unfolding handle_body
  body-Concluded =
      elim (Bool-cases (inputs.request.id == "" || inputs.request.operation_id == "")) [
        | inl e ↦ rw e (gave_up fresh [] invalid_request (Concluded p inputs))
        | inr e ↦ rw e (then_step (resolve_request_quiet p fresh [] inputs) decided_on)
      ]

  first_history : (history : History) → history ≡ [] → Past fresh [] history
  first_history history e = subst (Past fresh []) (sym e) at_start

  pub whole_run : Triple (λ history. history ≡ []) (handle p inputs) (Concluded p inputs)
  unfolding handle
  whole_run = recovered (strengthen body-Concluded first_history) (λ s history left e panic.
      closed_down policy_engine_failure s
        (run_panicked left (subst (λ h. handle_body p inputs h ≡ (left, panicked)) e panic) refl))

pub Ends-value :
    {A : Type 0} (Q : A → History → Type 0) (end : History × Answer A) (v : A) (history : History)
    → Ends Q end
    → end ≡ (history, done v)
    → Q v history
unfolding Ends
Ends-value Q end v history q e = subst (Ends Q) e q

-- However the services answer, a run that returns a result either refused the request, and then a
-- named step before the decision failed on what the steps before it gave, or the run panicked; or it
-- carried out the verdict of the decision engine on what was resolved: the decision,
-- the event of the audit trail, the question or the lease, and the move of the request, each the
-- answer of a call that was made.
pub handle-Concluded :
    (p : Pipeline) (inputs : Inputs) (r : Handled) (history : History)
    → handle p inputs [] ≡ (history, done r)
    → Concluded p inputs r history
handle-Concluded p inputs r history e =
    Ends-value (Concluded p inputs) (handle p inputs []) r history
      ((whole_run p inputs).ends [] refl) e
