-- ===== src/Pipeline/Cascading.antt =====
-- internal/core/pipeline/{agent,identity,expire}.go: the cascades make their calls in their order, and
-- what they did when they return.
use open_delo.Prelude.{String, ◌≡◌, refl, true, some, List, [], ◌∷◌, Memᴰ, ◌||◌, ◌==◌, eq_iff}
use open_delo.Matcher.Identity.{Identity, needs_review}
use open_delo.Lease.Rows.{Lease}
use open_delo.Trust.Memories.{Memory}
use open_delo.Pipeline.Requests.{Event, EventType}
use open_delo.Pipeline.Calls.{
  Answer, panicked, failed, done, Call, History, Run, audited, agent_disconnected,
  bound_leases_read, issued_leases_read, identity_read, memories_invalidated, identity_marked,
  approval_settled, approvals_due_read, decision_read, request_read, memory_read, memory_deleted,
}
use open_delo.Pipeline.Calls
use open_delo.Pipeline.Services.{Pipeline}
use open_delo.Pipeline.Protocol.{
  phase, Phase, fresh, revoking, noted, forgotten, after_event, after_call, after_start,
  after_revocation, after_invalidation, is_forgotten,
}
use open_delo.Pipeline.Runs.{
  given, given_some, Triple, Past, then_step, then_next, one_call, returned, gave_up, weaken,
  branch,
}
use open_delo.Pipeline.Turns.{quiet_clock}
use open_delo.Pipeline.Steps.{recorded}
use open_delo.Pipeline.Records.{SessionRevocation, IdentityRevocation, revocation_event}
use open_delo.Pipeline.Cascades.{
  revoke_each, revoke_session_leases_of, disconnect_agent, revoke_leases_of, mark_identity,
  disconnect_identity, revoke_lease,
}
use open_delo.Pipeline.Revoked.{Revoked, revocations, Paired, Revoked-calls, calls-Revoked}

module _ (p : Pipeline) where
  started :
      {Value : Type 0} (service : History → Answer Value) (entry : Answer Value → Call)
      → ((v : Value) → after_call (entry (done v)) fresh ≡ some revoking)
      → after_call (entry panicked) fresh ≡ some fresh
      → ((code : _) → after_call (entry (failed code)) fresh ≡ some fresh)
      → Triple (Past fresh []) (Calls.call service entry) (λ v. Past revoking (entry (done v) ∷ []))
  started service entry d q f =
      one_call fresh revoking [] service entry
        (λ a. elim a as (λ b. (t' : Phase) × (after_call (entry b) fresh ≡ some t')) [
          | panicked ↦ (fresh, q)
          | failed code ↦ (fresh, f code)
          | done v ↦ (revoking, d v)
        ])
        d

  revoked_one :
      (calls : List Call) (id : String)
      → Triple
          (Past (noted id) calls)
          (revoke_lease p id)
          (λ r. Past revoking (Calls.lease_revoked id (done r) ∷ calls))
  unfolding after_call after_revocation
  revoked_one calls id =
      let same : (id == id) ≡ true = (eq_iff id id).1 refl in
      one_call (noted id) revoking calls _ (Calls.lease_revoked id) (λ a. (revoking, rw same refl))
        (λ r. rw same refl)

  revoke_each-Revoked :
      (event : Lease → Event) (calls : List Call) (ls : List Lease)
      → ((l : Lease) → (event l).type ≡ EventType.lease_revoked)
      → ((l : Lease) → (event l).lease_id ≡ l.id)
      → Triple
          (Past revoking calls)
          (revoke_each p event ls)
          (λ rs history. Revoked ls rs history × Past revoking calls history)
  unfolding revoke_each after_event Revoked Past
  revoke_each-Revoked event calls [] kind names = returned [] (λ history past. (tt, past))
  revoke_each-Revoked event calls (l ∷ ls) kind names =
      then_next (recorded p calls revoking (noted l.id) (event l) (rw (kind l, names l) refl)) λ u.
        then_step (revoked_one (audited (event l) (done tt) ∷ calls) l.id) λ r.
          then_step
            (revoke_each-Revoked event
              (Calls.lease_revoked l.id (done r) ∷ audited (event l) (done tt) ∷ calls) ls kind
              names)
            λ rs.
              returned (r ∷ rs) (λ history done_all.
                ((done_all.1.1.0, done_all.0), (done_all.1.0, done_all.1.1.1.1)))

  -- The leases that were read, and that each of them was revoked.
  abbrev AllRevoked : (List Lease → Call) → List Call → List Lease → History → Type 0
  AllRevoked read calls rs history =
      (ls : List Lease) × Memᴰ (read ls) history
      × Revoked ls rs history
      × Past revoking calls history

  revoke_session_leases_of-Triple :
      (calls : List Call) (agent operation : String)
      → Triple
          (Past revoking calls)
          (revoke_session_leases_of p agent operation)
          (AllRevoked (λ ls. bound_leases_read agent (done ls)) calls)
  unfolding revoke_session_leases_of after_call revocation_event Past
  revoke_session_leases_of-Triple calls agent operation =
      then_step
        (one_call revoking revoking calls _ (bound_leases_read agent) (λ a. (revoking, refl))
          (λ v. refl))
        λ bound.
          weaken
            (revoke_each-Revoked _ (bound_leases_read agent (done bound) ∷ calls) bound (λ l. refl)
              (λ l. refl))
            (λ rs history (all, past). (bound, past.1.0, all, (past.0, past.1.1)))

  revoke_leases_of-Triple :
      (calls : List Call) (identity : Identity) (operation : String)
      → Triple
          (Past revoking calls)
          (revoke_leases_of p identity operation)
          (AllRevoked (λ ls. issued_leases_read identity.id (done ls)) calls)
  unfolding revoke_leases_of after_call revocation_event Past
  revoke_leases_of-Triple calls identity operation =
      then_step
        (one_call revoking revoking calls _ (issued_leases_read identity.id) (λ a. (revoking, refl))
          (λ v. refl))
        λ ls.
          weaken
            (revoke_each-Revoked _ (issued_leases_read identity.id (done ls) ∷ calls) ls (λ l. refl)
              (λ l. refl))
            (λ rs history (all, past). (ls, past.1.0, all, (past.0, past.1.1)))

  -- What the end of an agent's session leaves behind.
  pub record SessionEnded (agent : String) (r : SessionRevocation) (history : History)
      : Type 0 where
    pub bound : List Lease
    pub ended : Memᴰ (agent_disconnected agent (done r.agent)) history
    pub read : Memᴰ (bound_leases_read agent (done bound)) history
    pub revoked : Revoked bound r.revoked_leases history
    pub turn : phase history ≡ some revoking

  pub disconnect_agent-Triple :
      (agent operation : String)
      → Triple (Past fresh []) (disconnect_agent p agent operation) (SessionEnded agent)
  unfolding disconnect_agent after_call after_start Past
  disconnect_agent-Triple agent operation =
      branch (agent == "" || operation == "") (λ e. gave_up fresh [] _ _)
        λ e.
          then_step (started _ (agent_disconnected agent) (λ v. refl) refl (λ code. refl)) λ ended.
            then_step
              (revoke_session_leases_of-Triple (agent_disconnected agent (done ended) ∷ []) agent
                operation)
              λ revoked. returned _ (λ history (bound, read, all, past). record {
                bound = bound;
                ended = past.1.0;
                read = read;
                revoked = all;
                turn = past.0;
              })

  -- What the end of an identity leaves behind.
  pub record IdentityEnded (id : String) (r : IdentityRevocation) (history : History) : Type 0 where
    pub identity : Identity
    pub issued : List Lease
    pub found : Memᴰ (identity_read id (done identity)) history
    pub read : Memᴰ (issued_leases_read identity.id (done issued)) history
    pub revoked : Revoked issued r.revoked_leases history
    pub forgot : Memᴰ (memories_invalidated id (done r.invalidated_memories)) history
    pub marked : Memᴰ (identity_marked id needs_review (done r.identity)) history
    pub turn : phase history ≡ some forgotten

  -- The calls of an identity's end up to the revocations.
  abbrev identity_calls : String → Identity → List Lease → List Lease → List Call
  identity_calls id identity ls rs =
      identity_read id (done identity)
      ∷ issued_leases_read identity.id (done ls)
      ∷ revocations ls rs

  identity_revoked :
      (id : String) (identity : Identity) (operation : String)
      → Triple
          (Past revoking (identity_read id (done identity) ∷ []))
          (revoke_leases_of p identity operation)
          (λ rs history.
            (ls : List Lease) × (Paired ls rs
              × Past revoking (identity_calls id identity ls rs) history))
  unfolding Past
  identity_revoked id identity operation =
      weaken (revoke_leases_of-Triple (identity_read id (done identity) ∷ []) identity operation)
        (λ rs history (ls, read, all, past).
          let (same, calls) = Revoked-calls ls rs history all in
          (ls, (same, (past.0, (past.1.0, (read, calls))))))

  identity_marking :
      (calls : List Call) (id : String)
      → Triple
          (Past forgotten calls)
          (mark_identity p id)
          (λ i. Past forgotten (identity_marked id needs_review (done i) ∷ calls))
  unfolding mark_identity after_call is_forgotten
  identity_marking calls id = then_step (quiet_clock p forgotten calls) λ now.
      one_call forgotten forgotten calls _ (identity_marked id needs_review)
        (λ a. (forgotten, refl)) (λ v. refl)

  memories_gone :
      (calls : List Call) (service : History → Answer (List Memory)) (id : String)
      → Triple
          (Past revoking calls)
          (Calls.call service (memories_invalidated id))
          (λ ms. Past forgotten (memories_invalidated id (done ms) ∷ calls))
  unfolding after_call after_invalidation
  memories_gone calls service id =
      one_call revoking forgotten calls service (memories_invalidated id)
        (λ a.
          elim a
            as (λ b. (t : Phase) × (after_call (memories_invalidated id b) revoking ≡ some t)) [
              | panicked ↦ (revoking, refl)
              | failed code ↦ (revoking, refl)
              | done v ↦ (forgotten, refl)
            ])
        (λ v. refl)

  pub disconnect_identity-Triple :
      (id operation : String)
      → Triple (Past fresh []) (disconnect_identity p id operation) (IdentityEnded id)
  unfolding disconnect_identity after_call after_start Past
  disconnect_identity-Triple id operation =
      branch (id == "" || operation == "") (λ e. gave_up fresh [] _ _)
        λ e. then_step (started _ (identity_read id) (λ v. refl) refl (λ code. refl)) λ identity.
          then_step (identity_revoked id identity operation) λ rs. given_some λ ls. given λ paired.
            then_step (memories_gone (identity_calls id identity ls rs) _ id) λ ms.
              then_step
                (identity_marking
                  (memories_invalidated id (done ms) ∷ identity_calls id identity ls rs) id)
                λ i. returned _ (λ history (at, (marked, (forgot, (found, (read, calls))))).
                  record {
                    identity = identity;
                    issued = ls;
                    found = found;
                    read = read;
                    revoked = calls-Revoked ls rs history paired calls;
                    forgot = forgot;
                    marked = marked;
                    turn = at;
                  })
