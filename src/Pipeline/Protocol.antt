-- ===== src/Pipeline/Protocol.antt =====
-- internal/core/pipeline: the order of the calls that the package promises.
use open_delo.Prelude.{
  String, ◌≡◌, Bool, true, false, Option, none, some, [], ◌∷◌, if◌then◌else◌, ◌==◌,
}
use open_delo.Pipeline.Requests.{
  RequestStatus, EventType, auto_allowed, user_allowed, denied, error, approval_expired,
  trust_cleared,
}
use open_delo.Pipeline.Calls.{
  done, Call, decision_written, audited, approval_opened, lease_read, lease_issued,
  request_advanced, approval_settled, memory_generated, History, memory_deleted, agent_disconnected,
  lease_revoked, identity_read, memories_invalidated, identity_marked,
}

-- How far a request has come: nothing is on record yet, a permission is on record, a lease was
-- asked for, a refusal or a question is on record. How far a cascade has come: leases may be revoked,
-- the revocation of a lease is on record, the memories are gone; and how far the clearing of a memory
-- has come: it is on record.
pub data Phase : Type 0 where
  fresh cleared issuing refused revoking forgotten erasing : Phase
  noted : String → Phase

-- An event that is on record; `none` is a step that must not be.
-- The text is the key of the lease that the event names.
unfoldable pub after_event : EventType → String → Phase → Option Phase
after_event auto_allowed lease fresh = some cleared
after_event auto_allowed lease _ = none
after_event user_allowed lease fresh = some cleared
after_event user_allowed lease _ = none
after_event denied lease fresh = some refused
after_event denied lease _ = none
after_event error lease _ = some refused
after_event approval_expired lease fresh = some refused
after_event approval_expired lease refused = some refused
after_event approval_expired lease _ = none
after_event EventType.lease_revoked lease revoking = some (noted lease)
after_event EventType.lease_revoked lease _ = none
after_event trust_cleared lease fresh = some erasing
after_event trust_cleared lease _ = none
after_event _ lease s = some s

-- The request moves on to a status.
unfoldable pub may_advance : RequestStatus → Phase → Bool
may_advance RequestStatus.auto_allowed issuing = true
may_advance RequestStatus.approved issuing = true
may_advance RequestStatus.denied refused = true
may_advance RequestStatus.awaiting_approval refused = true
may_advance RequestStatus.rejected refused = true
may_advance _ _ = false

abbrev only_if : Bool → Phase → Option Phase
only_if test s = if test then some s else none

unfoldable pub is_fresh : Phase → Bool
is_fresh fresh = true
is_fresh _ = false

unfoldable pub is_issuing : Phase → Bool
is_issuing issuing = true
is_issuing _ = false

unfoldable pub is_refused : Phase → Bool
is_refused refused = true
is_refused _ = false

-- A lease is asked for, or one is taken up again, only where the permission is on record, and once.
unfoldable pub after_release : Phase → Option Phase
after_release cleared = some issuing
after_release _ = none

-- The start of a cascade.
unfoldable pub after_start : Phase → Option Phase
after_start fresh = some revoking
after_start _ = none

-- A lease is revoked, as it was noted just before.
unfoldable pub after_revocation : String → Phase → Option Phase
after_revocation id (noted x) = only_if (x == id) revoking
after_revocation id _ = none

unfoldable pub after_invalidation : Phase → Option Phase
after_invalidation revoking = some forgotten
after_invalidation _ = none

unfoldable pub is_forgotten : Phase → Bool
is_forgotten forgotten = true
is_forgotten _ = false

unfoldable pub is_erasing : Phase → Bool
is_erasing erasing = true
is_erasing _ = false

unfoldable pub after_call : Call → Phase → Option Phase
unfolding after_event may_advance is_fresh is_issuing is_refused after_release after_start
    after_revocation after_invalidation is_forgotten is_erasing
after_call (audited e (done _)) s = after_event e.type e.lease_id s
after_call (agent_disconnected _ (done _)) s = after_start s
after_call (identity_read _ (done _)) s = after_start s
after_call (lease_revoked id _) s = after_revocation id s
after_call (memories_invalidated _ (done _)) s = after_invalidation s
after_call (identity_marked _ _ _) s = only_if (is_forgotten s) s
after_call (memory_deleted _ _) s = only_if (is_erasing s) s
after_call (lease_issued _ _) s = after_release s
after_call (lease_read _ _) s = after_release s
after_call (decision_written _ _) s = only_if (is_fresh s) s
after_call (approval_opened _ _) s = only_if (is_refused s) s
after_call (approval_settled _ _ _) s = only_if (is_fresh s) s
after_call (memory_generated _ _) s = only_if (is_issuing s) s
after_call (request_advanced _ _ to _) s = only_if (may_advance to s) s
after_call _ s = some s

-- The phase that a history has reached, and none where a call came out of turn.
unfoldable pub phase : History → Option Phase
unfolding after_call
phase [] = some fresh
phase (c ∷ history) = elim (phase history) [ none ↦ none | some s ↦ after_call c s ]

pub phase_next :
    (c : Call) (history : History) (s t : Phase)
    → phase history ≡ some s
    → after_call c s ≡ some t
    → phase (c ∷ history) ≡ some t
unfolding phase
phase_next c history s t h e = rw h e
