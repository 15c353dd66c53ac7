-- ===== src/Pipeline/Revocations.antt =====
-- internal/core/pipeline/{agent,identity,expire}.go and settle.go: what the order of the calls means for
-- the leases that a cascade revokes, for an expiry, and for a memory that is cleared.
use open_delo.Prelude.{any, String, ◌≡◌, refl, subst, true, false, some, [], ◌∷◌, ◌++◌, arith, ◌||◌}
use open_delo.Prelude.Int.{ℤ}
use open_delo.Approval.Items.{Action, Status, Approval}
use open_delo.Lease.Rows.{Lease}
use open_delo.Pipeline.Calls.{
  Answer, done, Call, History, Run, audited, agent_disconnected, identity_read,
  memories_invalidated, identity_marked, approval_settled, memory_deleted,
}
use open_delo.Pipeline.Calls
use open_delo.Pipeline.Services.{Pipeline}
use open_delo.Pipeline.Protocol.{
  Phase, fresh, revoking, forgotten, is_fresh, after_revocation, is_erasing, after_call,
}
use open_delo.Pipeline.Runs.{InTurn, Triple, Past}
use open_delo.Pipeline.Order.{phase_before, InTurn-suffix}
use open_delo.Pipeline.Endings.{at_start, Ends-value}
use open_delo.Pipeline.Safety.{end-InTurn}
use open_delo.Pipeline.Records.{SessionRevocation, IdentityRevocation}
use open_delo.Pipeline.Cascades.{
  disconnect_agent, disconnect_identity, expire_approvals, clear_trust_memory,
}
use open_delo.Pipeline.Cascading.{
  SessionEnded, IdentityEnded, disconnect_agent-Triple, disconnect_identity-Triple,
}
use open_delo.Pipeline.Expiring.{expire_approvals-Triple, clear_trust_memory-Triple}
use open_delo.Pipeline.Tracks.{
  notes, starts, invalidates, marks, clears, expires, is_noted, is_cascade, is_early, step_to_noted,
  step_to_cascade, step_to_erasing, step_to_early, step_to_fresh, entered, not_left,
}

-- The phase in which a lease may be revoked, an item closed or a memory deleted.
revocation-noted :
    (id : String) (a : Answer Lease) (s t : Phase)
    → after_call (Calls.lease_revoked id a) s ≡ some t
    → (is_noted id s ≡ true) × (is_cascade s ≡ true)
unfolding after_call after_revocation is_noted is_cascade
revocation-noted id a s t h = ground (arith, h)

closing-fresh :
    (action : Action) (status : Status) (a : Answer Approval) (s t : Phase)
    → after_call (approval_settled action status a) s ≡ some t
    → is_fresh s ≡ true
unfolding after_call is_fresh
closing-fresh action status a s t h = ground (arith, h)

deletion-erasing :
    (id : String) (a : Answer (Unit {0})) (s t : Phase)
    → after_call (memory_deleted id a) s ≡ some t
    → is_erasing s ≡ true
unfolding after_call is_erasing
deletion-erasing id a s t h = ground (arith, h)

-- Where a lease is revoked in its turn, its revocation is on record, the cascade was started, and no
-- memory was invalidated and no identity marked.
revocation_order :
    (id : String) (a : Answer Lease) (before : History)
    → InTurn (Calls.lease_revoked id a ∷ before)
    → (any (notes id) before ≡ true)
      × (any starts before ≡ true)
      × (any (λ c. invalidates c || marks c) before ≡ false)
unfolding InTurn is_early is_noted
revocation_order id a before (s, turn) =
    let (t, e, next) = phase_before (Calls.lease_revoked id a) before s turn in
    let (noted_id, cascade) = revocation-noted id a t s next in
    (
      entered (is_noted id) (notes id) (step_to_noted id) refl before t e noted_id,
      entered is_cascade starts step_to_cascade refl before t e cascade,
      not_left is_early (λ c. invalidates c || marks c) step_to_early before t e
          (ground (arith, cascade)),
    )

suffix-InTurn :
    {Value : Type 0} {m : Run Value} {Q : Value → History → Type 0} (after before : History)
    → Triple (Past fresh []) m Q
    → ((v : Value) (history : History) → Q v history → InTurn history)
    → (m []).0 ≡ after ++ before
    → InTurn before
suffix-InTurn after before triple turn e =
    InTurn-suffix after before (subst InTurn e (end-InTurn _ _ (triple.ends [] at_start) turn))

module _ (p : Pipeline) where
  -- However the services answer and however the run ends: where the end of an agent's session revokes a
  -- lease, the revocation of that lease was put on record before, and a session ended or an identity
  -- read.
  pub disconnect_agent-order :
      (agent operation id : String) (a : Answer Lease) (after before : History)
      → (disconnect_agent p agent operation []).0 ≡ after ++ Calls.lease_revoked id a ∷ before
      → (any (notes id) before ≡ true) × (any starts before ≡ true)
  unfolding InTurn
  disconnect_agent-order agent operation id a after before e =
      let (noted_id, started, quiet) = revocation_order id a before (
        suffix-InTurn after _ (disconnect_agent-Triple p agent operation)
          (λ r history ended. (revoking, ended.turn)) e) in
      (noted_id, started)

  -- However the services answer and however the run ends: where the end of an identity revokes a lease,
  -- the revocation of that lease was put on record before, a session ended or an identity read, and
  -- neither were memories invalidated nor was an identity marked yet.
  pub disconnect_identity-order :
      (identity operation id : String) (a : Answer Lease) (after before : History)
      → (disconnect_identity p identity operation []).0 ≡ after ++ Calls.lease_revoked id a ∷ before
      → (any (notes id) before ≡ true)
        × (any starts before ≡ true)
        × (any (λ c. invalidates c || marks c) before ≡ false)
  unfolding InTurn
  disconnect_identity-order identity operation id a after before e = revocation_order id a before (
      suffix-InTurn after _ (disconnect_identity-Triple p identity operation)
        (λ r history ended. (forgotten, ended.turn)) e)

  -- However the services answer and however the run ends: where ExpireApprovals closes an item, it has
  -- put no expiry on record yet, so that it closes all items before it records the first.
  pub expire_approvals-order :
      (limit : ℤ) (action : Action) (status : Status) (a : Answer Approval) (after before : History)
      → (expire_approvals p limit []).0 ≡ after ++ approval_settled action status a ∷ before
      → any expires before ≡ false
  unfolding InTurn
  expire_approvals-order limit action status a after before e =
      let (s, turn) =
        suffix-InTurn after _ (expire_approvals-Triple p limit) (λ n history turn. turn) e in
      let (t, earlier, next) = phase_before _ before s turn in
      not_left is_fresh expires step_to_fresh before t earlier
        (closing-fresh action status a t s next)

  -- However the services answer and however the run ends: where ClearTrustMemory deletes a memory, the
  -- clearing was put on record before.
  pub clear_trust_memory-order :
      (id operation deleted : String) (a : Answer (Unit {0})) (after before : History)
      → (clear_trust_memory p id operation []).0 ≡ after ++ memory_deleted deleted a ∷ before
      → any clears before ≡ true
  unfolding InTurn is_erasing
  clear_trust_memory-order id operation deleted a after before e =
      let (s, turn) =
        suffix-InTurn after _ (clear_trust_memory-Triple p id operation) (λ n history turn. turn)
          e in
      let (t, earlier, next) = phase_before _ before s turn in
      entered is_erasing clears step_to_erasing refl before t earlier
        (deletion-erasing deleted a t s next)

  -- The end of an agent's session that returns has ended the session, and revoked each of the leases
  -- bound to it that were read, with the answers as the result has them.
  pub disconnect_agent-SessionEnded :
      (agent operation : String) (r : SessionRevocation) (history : History)
      → disconnect_agent p agent operation [] ≡ (history, done r)
      → SessionEnded p agent r history
  disconnect_agent-SessionEnded agent operation r history e =
      Ends-value _ _ r history ((disconnect_agent-Triple p agent operation).ends [] at_start) e

  -- The end of an identity that returns has revoked each of the leases of the identity that were read,
  -- invalidated its memories and marked it as to be reviewed, each the answer of a call that was made,
  -- as the result has it.
  pub disconnect_identity-IdentityEnded :
      (id operation : String) (r : IdentityRevocation) (history : History)
      → disconnect_identity p id operation [] ≡ (history, done r)
      → IdentityEnded p id r history
  disconnect_identity-IdentityEnded id operation r history e =
      Ends-value _ _ r history ((disconnect_identity-Triple p id operation).ends [] at_start) e
