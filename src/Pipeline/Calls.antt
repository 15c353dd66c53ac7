-- ===== src/Pipeline/Calls.antt =====
-- The calls that a run of the pipeline makes to the services around it. A history holds the calls
-- made so far with their answers, the last call first.
use open_delo.Prelude.{ℕ, String, List, ◌∷◌}
use open_delo.Platform.AppError.{Code, Result, err, ok}
use open_delo.Approval.Items.{Action, Status, Approval}
use open_delo.Lease.Rows.{Lease}
use open_delo.Lease.Manager.{IssueRequest}
use open_delo.Matcher.Identity.{Identity, IdentityStatus}
use open_delo.Agent.Identity.{Agent}
use open_delo.Trust.Memories.{Memory}
use open_delo.Trust.Manager.{GenerateRequest}
use open_delo.Pipeline.Requests.{RequestStatus, CapabilityRequest, Decision, Event}

-- How a Go function ends that returns a value with an `error`: with the value, with the error or
-- with a panic.
pub data Answer {ℓ} (Value : Type ℓ) : Type ℓ where
  panicked : Answer Value
  failed : Code → Answer Value
  done : Value → Answer Value

pub data Call : Type 0 where
  clock_read : ℕ → Call
  id_made : Answer String → Call
  memories_read : Answer (List Memory) → Call
  leases_read : Answer (List Lease) → Call
  decision_written : Decision → Answer Decision → Call
  audited : Event → Answer (Unit {0}) → Call
  approval_opened : String → Answer Approval → Call
  lease_read : String → Answer Lease → Call
  lease_issued : IssueRequest → Answer Lease → Call
  request_advanced : String → RequestStatus → RequestStatus → Answer CapabilityRequest → Call
  approval_read : String → Answer Approval → Call
  decision_read : String → Answer Decision → Call
  request_read : String → Answer CapabilityRequest → Call
  approval_settled : Action → Status → Answer Approval → Call
  approvals_due_read : Answer (List Approval) → Call
  issued_lease_read : String → Answer Lease → Call
  memory_generated : GenerateRequest → Answer Memory → Call
  memory_read : String → Answer Memory → Call
  memory_deleted : String → Answer (Unit {0}) → Call
  agent_disconnected : String → Answer Agent → Call
  bound_leases_read : String → Answer (List Lease) → Call
  issued_leases_read : String → Answer (List Lease) → Call
  lease_revoked : String → Answer Lease → Call
  identity_read : String → Answer Identity → Call
  memories_invalidated : String → Answer (List Memory) → Call
  identity_marked : String → IdentityStatus → Answer Identity → Call

abbrev pub History : Type 0
History = List Call

-- Code that makes calls: what it adds to the history, and how it ends.
abbrev pub Run {ℓ} : Type ℓ → Type ℓ
Run Value = History → History × Answer Value

unfoldable pub return {ℓ} : {Value : Type ℓ} → Value → Run Value
return v history = (history, done v)

unfoldable pub fail {ℓ} : {Value : Type ℓ} → Code → Run Value
fail code history = (history, failed code)

unfoldable pub panic {ℓ} : {Value : Type ℓ} → Run Value
panic history = (history, panicked)

-- A function without calls.
unfoldable pub lift {ℓ} : {Value : Type ℓ} → Result Value → Run Value
unfolding return fail
lift (err code) = fail code
lift (ok v) = return v

-- The value without the error, which the caller handles itself.
unfoldable pub attempt {ℓ} : {Value : Type ℓ} → Run Value → Run (Result Value)
attempt m history =
    let (history', answer) = m history in
    elim answer [
      | panicked ↦ (history', panicked)
      | failed code ↦ (history', done (err code))
      | done v ↦ (history', done (ok v))
    ]

-- One call, answered by a service that may depend on all the calls before.
unfoldable pub call {ℓ} :
    {Value : Type ℓ} → (History → Answer Value) → (Answer Value → Call) → Run Value
call service entry history = (entry (service history) ∷ history, service history)

-- `if err != nil { return err }` between two calls; a panic ends both.
infixl 20 ◌>>=◌ ◌>>◌
unfoldable pub ◌>>=◌ {κ ℓ} :
    {Before : Type κ} {After : Type ℓ} → Run Before → (Before → Run After) → Run After
◌>>=◌ m next history =
    let (history', answer) = m history in
    elim answer [
      | panicked ↦ (history', panicked)
      | failed code ↦ (history', failed code)
      | done v ↦ next v history'
    ]

unfoldable pub ◌>>◌ {κ ℓ} : {Before : Type κ} {After : Type ℓ} → Run Before → Run After → Run After
unfolding ◌>>=◌
m >> next = m >>= λ _. next

-- A deferred `recover`.
unfoldable pub recover {ℓ} : {Value : Type ℓ} → Run Value → Run Value → Run Value
recover m rescue history =
    let (history', answer) = m history in
    elim answer [
      | panicked ↦ rescue history'
      | failed code ↦ (history', failed code)
      | done v ↦ (history', done v)
    ]
