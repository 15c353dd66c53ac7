-- ===== src/Pipeline/Tracks.antt =====
-- internal/core/pipeline: which calls lead a cascade into its phases, and which end them.
use open_delo.Prelude.{
  any, String, ◌≡◌, refl, ◌⊎◌, inl, inr, Bool, true, false, some, [], ◌∷◌, arith, ◌==◌, ◌||◌,
}
use open_delo.Pipeline.Requests.{EventType}
use open_delo.Pipeline.Calls.{
  done, Call, History, audited, agent_disconnected, identity_read, memories_invalidated,
  identity_marked,
}
use open_delo.Pipeline.Protocol.{
  Phase, fresh, revoking, noted, after_event, may_advance, is_fresh, is_issuing, is_refused,
  after_release, after_start, after_revocation, after_invalidation, is_forgotten, is_erasing,
  after_call, phase,
}
use open_delo.Pipeline.Order.{phase_before}

-- The revocation of a lease is on record.
unfoldable pub notes : String → Call → Bool
notes id (audited e (done _)) = elim e.type [
  | EventType.lease_revoked ↦ e.lease_id == id
  | _ ↦ false
]
notes id _ = false

-- An agent's session was ended, or an identity read.
unfoldable pub starts : Call → Bool
starts (agent_disconnected _ (done _)) = true
starts (identity_read _ (done _)) = true
starts _ = false

unfoldable pub invalidates : Call → Bool
invalidates (memories_invalidated _ (done _)) = true
invalidates _ = false

unfoldable pub marks : Call → Bool
marks (identity_marked _ _ _) = true
marks _ = false

-- The clearing of a memory is on record.
unfoldable pub clears : Call → Bool
clears (audited e (done _)) = elim e.type [ EventType.trust_cleared ↦ true | _ ↦ false ]
clears _ = false

-- The expiry of an approval item is on record.
unfoldable pub expires : Call → Bool
expires (audited e (done _)) = elim e.type [ EventType.approval_expired ↦ true | _ ↦ false ]
expires _ = false

-- A lease is still to be revoked, or may be.
unfoldable pub is_cascade : Phase → Bool
is_cascade revoking = true
is_cascade (noted _) = true
is_cascade _ = false

unfoldable pub is_early : Phase → Bool
unfolding is_cascade is_fresh
is_early s = is_fresh s || is_cascade s

unfoldable pub is_noted : String → Phase → Bool
is_noted id (noted x) = x == id
is_noted id _ = false

-- The step into a phase, from the one before.
pub step_to_noted :
    (id : String) (c : Call) (s t : Phase)
    → after_call c s ≡ some t
    → is_noted id t ≡ true
    → (is_noted id s ≡ true) ⊎ (notes id c ≡ true)
unfolding after_call after_event is_fresh is_issuing is_refused may_advance after_release
    after_start after_revocation after_invalidation is_forgotten is_erasing notes is_noted
step_to_noted id c s t h e = ground (arith, h, e)

pub step_to_cascade :
    (c : Call) (s t : Phase)
    → after_call c s ≡ some t
    → is_cascade t ≡ true
    → (is_cascade s ≡ true) ⊎ (starts c ≡ true)
unfolding after_call after_event is_fresh is_issuing is_refused may_advance after_release
    after_start after_revocation after_invalidation is_forgotten is_erasing starts is_cascade
step_to_cascade c s t h e = ground (arith, h, e)

pub step_to_erasing :
    (c : Call) (s t : Phase)
    → after_call c s ≡ some t
    → is_erasing t ≡ true
    → (is_erasing s ≡ true) ⊎ (clears c ≡ true)
unfolding after_call after_event is_fresh is_issuing is_refused may_advance after_release
    after_start after_revocation after_invalidation is_forgotten is_erasing clears
step_to_erasing c s t h e = ground (arith, h, e)

pub step_to_early :
    (c : Call) (s t : Phase)
    → after_call c s ≡ some t
    → is_early t ≡ true
    → (is_early s ≡ true) × ((invalidates c || marks c) ≡ false)
unfolding after_call after_event is_fresh is_issuing is_refused may_advance after_release
    after_start after_revocation after_invalidation is_forgotten is_erasing is_cascade is_early
    invalidates marks
step_to_early c s t h e = ground (arith, h, e)

pub step_to_fresh :
    (c : Call) (s t : Phase)
    → after_call c s ≡ some t
    → is_fresh t ≡ true
    → (is_fresh s ≡ true) × (expires c ≡ false)
unfolding after_call after_event is_fresh is_issuing is_refused may_advance after_release
    after_start after_revocation after_invalidation is_forgotten is_erasing expires
step_to_fresh c s t h e = ground (arith, h, e)

-- A phase that only one call leads to: that call was made.
module _ (into : Phase → Bool) (by : Call → Bool)
    (step : (c : Call) (s t : Phase)
      → after_call c s ≡ some t
      → into t ≡ true
      → (into s ≡ true) ⊎ (by c ≡ true))
    (start : into fresh ≡ false) where
  pub entered :
      (history : History) (s : Phase)
      → phase history ≡ some s
      → into s ≡ true
      → any by history ≡ true
  unfolding phase
  entered [] s h e = ground (arith, h, e, start)
  entered (c ∷ history) s h e =
      let (t, before, next) = phase_before c history s h in
      elim (step c t s next e) [
        | inl earlier ↦ ground (arith, entered history t before earlier)
        | inr now ↦ ground (arith, now)
      ]

-- A phase that some calls end for good: none of them was made.
module _ (until : Phase → Bool) (by : Call → Bool)
    (step : (c : Call) (s t : Phase)
      → after_call c s ≡ some t
      → until t ≡ true
      → (until s ≡ true) × (by c ≡ false)) where
  pub not_left :
      (history : History) (s : Phase)
      → phase history ≡ some s
      → until s ≡ true
      → any by history ≡ false
  not_left [] s h e = refl
  not_left (c ∷ history) s h e =
      let (t, before, next) = phase_before c history s h in
      let (earlier, now) = step c t s next e in
      ground (arith, now, not_left history t before earlier)
