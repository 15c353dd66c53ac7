-- ===== src/Pipeline/Order.antt =====
-- internal/core/pipeline: what the order of the calls means for a lease.
use open_delo.Prelude.{
  any, ◌≡◌, refl, ◌⊎◌, inl, inr, Bool, true, false, some, [], ◌∷◌, ◌++◌, arith, Option-cases,
  contradiction,
}
use open_delo.Pipeline.Requests.{EventType}
use open_delo.Pipeline.Calls.{done, Call, audited, lease_read, lease_issued, History}
use open_delo.Pipeline.Protocol.{
  Phase, fresh, cleared, after_event, may_advance, is_fresh, is_issuing, is_refused, after_release,
  after_call, phase,
}
use open_delo.Pipeline.Runs.{InTurn}

-- The calls that give a lease out.
unfoldable pub is_release : Call → Bool
is_release (lease_issued _ _) = true
is_release (lease_read _ _) = true
is_release _ = false

unfoldable pub is_permission : EventType → Bool
is_permission EventType.auto_allowed = true
is_permission EventType.user_allowed = true
is_permission _ = false

step_to_fresh :
    (c : Call) (s : Phase) → after_call c s ≡ some fresh → (s ≡ fresh) × (is_release c ≡ false)
unfolding after_call after_event is_fresh is_issuing is_refused may_advance after_release is_release
step_to_fresh c s h = ground (arith, h)

-- A permission that is on record.
unfoldable pub permits : Call → Bool
unfolding is_permission
permits (audited e (done _)) = is_permission e.type
permits _ = false

step_to_cleared :
    (c : Call) (s : Phase)
    → after_call c s ≡ some cleared
    → (is_release c ≡ false) × ((s ≡ cleared) ⊎ ((s ≡ fresh) × (permits c ≡ true)))
unfolding after_call after_event is_fresh is_issuing is_refused may_advance after_release is_release
    is_permission permits
step_to_cleared c s h = ground (arith, h)

pub phase_before :
    (c : Call) (history : History) (s : Phase)
    → phase (c ∷ history) ≡ some s
    → (t : Phase) × (phase history ≡ some t) × (after_call c t ≡ some s)
unfolding phase
phase_before c history s h = elim (Option-cases (phase history)) [
  | inl e ↦ contradiction (ground (arith, e, h))
  | inr (t, e) ↦ (t, e, rw e at h)
]

no_release_yet : (history : History) → phase history ≡ some fresh → any is_release history ≡ false
unfolding phase
no_release_yet [] h = refl
no_release_yet (c ∷ history) h =
    let (t, e, next) = phase_before c history fresh h in
    let (same, quiet) = step_to_fresh c t next in
    ground (arith, quiet, no_release_yet history (rw same at e))

cleared-permits :
    (history : History)
    → phase history ≡ some cleared
    → (any permits history ≡ true) × (any is_release history ≡ false)
unfolding phase
cleared-permits [] h = ground (arith, h)
cleared-permits (c ∷ history) h =
    let (t, e, next) = phase_before c history cleared h in
    let (quiet, earlier) = step_to_cleared c t next in
    elim earlier [
      | inl same ↦
          let (a, b) = cleared-permits history (rw same at e) in ground (arith, quiet, a, b)
      | inr (same, now) ↦ ground (arith, quiet, now, no_release_yet history (rw same at e))
    ]

release_when_cleared :
    (c : Call) (s t : Phase) → is_release c ≡ true → after_call c s ≡ some t → s ≡ cleared
unfolding after_call after_release is_release
release_when_cleared c s t r h = ground (arith, r, h)

pub InTurn-suffix : (after before : History) → InTurn (after ++ before) → InTurn before
unfolding InTurn
InTurn-suffix [] before turn = turn
InTurn-suffix (c ∷ after) before turn =
    let (t, e, next) = phase_before c (after ++ before) turn.0 turn.1 in
    InTurn-suffix after before (t, e)

-- Where a lease is given out, a permission was put on record before, and no lease was given out
-- before.
pub release-permits :
    (c : Call) (before : History)
    → InTurn (c ∷ before)
    → is_release c ≡ true
    → (any permits before ≡ true) × (any is_release before ≡ false)
unfolding InTurn
release-permits c before turn r =
    let (t, e, next) = phase_before c before turn.0 turn.1 in
    cleared-permits before (rw (release_when_cleared c t turn.0 r next) at e)
