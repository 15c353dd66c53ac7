-- ===== src/Pipeline/Steps.antt =====
-- internal/core/pipeline/pipeline.go: the calls that each step after the decision makes.
use open_delo.Prelude.{
  String, ◌≡◌, refl, inl, inr, true, some, List, ◌∷◌, ◌==◌, if◌then◌else◌, Bool-cases,
}
use open_delo.Decision.Engine.{Outcome}
use open_delo.Lease.Rows.{text_of, Lease}
use open_delo.Pipeline.Requests.{
  RequestStatus, CapabilityRequest, Decision, Event, EventType, EventOutcome, succeeded,
}
use open_delo.Pipeline.Calls.{
  panicked, failed, done, Call, id_made, decision_written, audited, lease_read, lease_issued,
  request_advanced,
}
use open_delo.Pipeline.Services.{Pipeline}
use open_delo.Pipeline.Inputs.{Inputs, Resolved}
use open_delo.Pipeline.Handling.{
  event_of, decision_of, request_for, record_event, advance, record_decision, write, issue_one,
  release, issue_allowed,
}
use open_delo.Pipeline.Protocol.{
  Phase, fresh, cleared, issuing, refused, after_event, may_advance, is_fresh, after_release,
  after_call,
}
use open_delo.Pipeline.Runs.{
  Triple, Past, then_step, then_next, one_call, quiet_call, lifted, weaken,
}
use open_delo.Pipeline.Turns.{quiet_clock}

-- The call that gave the lease.
unfoldable pub taken : Resolved → Decision → String → Lease → Call
unfolding request_for
taken out written reused l =
    if reused == ""
    then lease_issued (request_for out written) (done l)
    else lease_read reused (done l)

module _ (p : Pipeline) (calls : List Call) where
  -- An event that cannot be written leaves the phase as it is.
  pub recorded :
      (s t : Phase) (e : Event)
      → after_event e.type e.lease_id s ≡ some t
      → Triple (Past s calls) (record_event p e) (λ v. Past t (audited e (done tt) ∷ calls))
  unfolding after_call
  recorded s t e turn =
      one_call s t calls _ (audited e)
        (λ a. elim a as (λ b. (t' : Phase) × (after_call (audited e b) s ≡ some t')) [
          | panicked ↦ (s, refl)
          | failed code ↦ (s, refl)
          | done v ↦ (t, turn)
        ])
        (λ v. turn)

  pub advanced :
      (s : Phase) (request : CapabilityRequest) (to : RequestStatus)
      → may_advance to s ≡ true
      → Triple
          (Past s calls)
          (advance p request to)
          (λ r. Past s (request_advanced request.id request.status to (done r) ∷ calls))
  unfolding advance after_call
  advanced s request to turn = then_step (quiet_clock p s calls) (λ now.
      one_call s s calls _ (request_advanced request.id request.status to) (λ a. (s, rw turn refl))
        (λ v. rw turn refl))

  -- The decision is on record with the verdict that was reached.
  pub decided :
      (inputs : Inputs) (out : Resolved) (outcome : Outcome)
      → Triple (Past fresh calls) (record_decision p inputs out outcome) (λ written history.
        (d : Decision) × (d.verdict ≡ outcome.verdict)
        × Past fresh (decision_written d (done written) ∷ calls) history)
  unfolding record_decision decision_of after_call is_fresh Past
  decided inputs out outcome = then_step (quiet_call fresh calls _ id_made (λ a. refl)) (λ id.
      then_step (lifted fresh calls _) (λ factors. then_step (lifted fresh calls _) (λ scope.
        then_step (quiet_clock p fresh calls) (λ now.
          weaken
            (one_call fresh fresh calls _ (decision_written _) (λ a. (fresh, refl)) (λ v. refl))
            (λ written history past.
              (decision_of inputs out outcome id factors scope now, refl, past))))))

  -- The event of a refusal or of a question.
  pub denial :
      (inputs : Inputs) (out : Resolved) (written : Decision)
      → Triple
          (Past fresh calls)
          (write p inputs out written EventType.denied EventOutcome.blocked)
          (λ v. Past refused (
            audited (event_of inputs out written EventType.denied EventOutcome.blocked) (done tt)
            ∷ calls))
  unfolding write after_event event_of
  denial inputs out written = recorded fresh refused _ refl

  release-taken :
      (out : Resolved) (written : Decision) (reused : String)
      → Triple
          (Past cleared calls)
          (release p out written reused)
          (λ l. Past issuing (taken out written reused l ∷ calls))
  unfolding release issue_one taken after_call after_release
  release-taken out written reused = elim (Bool-cases (reused == "")) [
    | inl e ↦ rw e (
        one_call cleared issuing calls (λ h. p.services.issue h (request_for out written))
          (lease_issued (request_for out written)) (λ a. (issuing, refl)) (λ v. refl))
    | inr e ↦ rw e (
        one_call cleared issuing calls (λ h. p.services.lease_by_id h reused) (lease_read reused)
          (λ a. (issuing, refl)) (λ v. refl))
  ]

module _ (p : Pipeline) (calls : List Call) where
  -- The permission is on record, and then the lease that matched is read or one is issued.
  pub released :
      (inputs : Inputs) (out : Resolved) (written : Decision) (outcome : Outcome)
      → Triple (Past fresh calls) (issue_allowed p inputs out written outcome) (λ l. Past issuing (
          taken out written (text_of outcome.matched_lease_id) l
          ∷ audited (event_of inputs out written EventType.auto_allowed succeeded) (done tt)
          ∷ calls))
  unfolding issue_allowed write after_event event_of
  released inputs out written outcome =
      then_next
        (recorded p calls fresh cleared
          (event_of inputs out written EventType.auto_allowed succeeded) refl)
        (λ v. release-taken p _ out written (text_of outcome.matched_lease_id))
