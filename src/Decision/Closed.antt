-- ===== src/Decision/Closed.antt =====
-- internal/core/decision: denials, and what no input can bring about.
use open_delo.Prelude.{
  String, ◌≡◌, ◌≢◌, refl, sym, ◌∙◌, All, any-mem, ◌⊎◌, inl, inr, ◌↔◌, Bool, true, ◌&&◌, not, Option,
  none, some, List, [], ◌∷◌, any, find-mem, Memᴰ, arith, Option-cases, Bool-cases,
}
use open_delo.Prelude.Text.{Letters}
use open_delo.Scope.Dimensions.{covers_ignoring_window}
use open_delo.Decision.Verdicts.{auto_allow, deny}
use open_delo.Decision.Forbidden.{classify_forbidden}
use open_delo.Decision.FailClosed.{
  Blocker, policy_engine_failure, Grant, ActiveLease, Input, valid_blocker, first_tripped,
  self_checks, self_detected,
}
use open_delo.Decision.Engine.{
  active_lease, mode_rules, matched_lease, automatable, asks_always, present, rule_low_risk,
  rule_learned_medium, branches, fail_closed_outcome, forbidden_outcome, reported, blocked,
  walk_branches, decide,
}
use open_delo.Decision.AutoAllow.{decide_auto_allow_iff}

-- With a known mode the branches do not panic, so the walk never denies.
walk-open :
    (i : Input)
    → present (mode_rules i.mode) ≡ true
    → ((walk_branches i (automatable i) branches).verdict ≢ deny)
      × ((walk_branches i (automatable i) branches).blocker ≡ none)
unfolding walk_branches branches rule_low_risk rule_learned_medium
walk-open i m = ground arith

mode_known : (i : Input) → blocked i ≡ none → present (mode_rules i.mode) ≡ true
unfolding blocked
mode_known i h = ground arith

-- A request is denied exactly if something blocks it or its operation is on the forbidden list;
-- blocked, the reason is `fail_closed` with that blocker.
pub decide_deny_iff :
    (letters : Letters) (i : Input)
    → (((decide letters i).verdict ≡ deny) ↔ (
        (blocked i ≢ none)
        ⊎ (classify_forbidden letters i.scope.scope.service i.scope.scope.operation ≢ none)))
      × ((decide letters i).blocker ≡ blocked i)
unfolding decide fail_closed_outcome forbidden_outcome
decide_deny_iff letters i = elim (Option-cases (blocked i)) [
  | inr (b, e) ↦ ground (arith, e)
  | inl e ↦ ground (arith, e, walk-open i (mode_known i e))
]

reported-policy :
    (bs : List Blocker)
    → reported bs ≡ some policy_engine_failure
    → (any (λ b. not (valid_blocker b)) bs ≡ true) ⊎ Memᴰ policy_engine_failure bs
unfolding reported
reported-policy [] h = cc
reported-policy (b ∷ bs) h = elim (Bool-cases (any (λ x. not (valid_blocker x)) (b ∷ bs))) [
  | inl e ↦ inl e
  | inr e ↦ let same : b ≡ policy_engine_failure = ground (arith, e) in inr (Memᴰ.head (sym same))
]

first_tripped-ne :
    (x : Blocker) (checks : List (Blocker × Bool))
    → All (λ c. c.0 ≢ x) checks
    → first_tripped checks ≢ some x
unfolding first_tripped
first_tripped-ne x [] h e = cc
first_tripped-ne x ((b, tripped) ∷ checks) h e = ground (arith, first_tripped-ne x checks h.1, h.0)

self_detected-ne-policy : (i : Input) → self_detected i ≢ some policy_engine_failure
unfolding self_detected self_checks
self_detected-ne-policy i =
    first_tripped-ne policy_engine_failure (self_checks i)
      ((λ e. cc), ((λ e. cc), ((λ e. cc), ((λ e. cc), ((λ e. cc), tt)))))

blocked-policy :
    (i : Input)
    → blocked i ≡ some policy_engine_failure
    → (mode_rules i.mode ≡ none) ⊎ (reported i.blockers ≡ some policy_engine_failure)
unfolding blocked
blocked-policy i h = ground (arith, self_detected-ne-policy i)

-- The engine reports its own failure only where the mode is unknown or the caller reported that
-- failure or a blocker that is none of the ten: the branches never panic.
pub decide_policy_failure :
    (letters : Letters) (i : Input)
    → (decide letters i).blocker ≡ some policy_engine_failure
    → (mode_rules i.mode ≡ none)
      ⊎ (any (λ b. not (valid_blocker b)) i.blockers ≡ true)
      ⊎ Memᴰ policy_engine_failure i.blockers
decide_policy_failure letters i h =
    elim (blocked-policy i (sym (decide_deny_iff letters i).1 ∙ h)) [
      | inl e ↦ inl e
      | inr e ↦ inr (reported-policy i.blockers e)
    ]

walk-lease :
    (i : Input) (id : String)
    → (walk_branches i (automatable i) branches).matched_lease_id ≡ some id
    → ((walk_branches i (automatable i) branches).verdict ≡ auto_allow)
      × ((walk_branches i (automatable i) branches).reason ≡ active_lease)
      × (elim (matched_lease i) [ none ↦ none | some l ↦ some l.lease_id ] ≡ some id)
unfolding walk_branches branches
walk-lease i id h = ground arith

lease_found :
    (i : Input) (id : String) (found : Option ActiveLease)
    → matched_lease i ≡ found
    → elim found [ none ↦ none | some l ↦ some l.lease_id ] ≡ some id
    → (l : ActiveLease) × Memᴰ l i.active
      × (l.lease_id ≡ id)
      × (covers_ignoring_window l.scope i.scope.scope ≡ true)
unfolding matched_lease
lease_found i id none e h = cc
lease_found i id (some l) e h =
    let (m, c) = find-mem (λ x. covers_ignoring_window x.scope i.scope.scope) i.active l e in
    (l, m, ground arith, c)

decide-lease_walk :
    (letters : Letters) (i : Input) (id : String)
    → (decide letters i).matched_lease_id ≡ some id
    → decide letters i ≡ walk_branches i (automatable i) branches
unfolding decide fail_closed_outcome forbidden_outcome
decide-lease_walk letters i id h = ground arith

-- A lease is named in the outcome only where it is the reason for an automatic allowance, and then
-- it is one of the active leases and covers the request.
pub decide_lease :
    (letters : Letters) (i : Input) (id : String)
    → (decide letters i).matched_lease_id ≡ some id
    → ((decide letters i).verdict ≡ auto_allow)
      × ((decide letters i).reason ≡ active_lease)
      × ((l : ActiveLease) × Memᴰ l i.active
          × (l.lease_id ≡ id)
          × (covers_ignoring_window l.scope i.scope.scope ≡ true))
decide_lease letters i id h =
    let same = decide-lease_walk letters i id h in
    let (v, r, found) = walk-lease i id (rw (← same) h) in
    rw same (v, r, lease_found i id (matched_lease i) refl found)

-- One grant that covers the request and asks always is enough: whatever else was learned or
-- leased, the request is not allowed without asking.
pub decide_always_ask :
    (letters : Letters) (i : Input) (g : Grant)
    → Memᴰ g i.learned
    → g.always_ask ≡ true
    → covers_ignoring_window g.scope i.scope.scope ≡ true
    → (decide letters i).verdict ≢ auto_allow
unfolding asks_always
decide_always_ask letters i g m asks covered h =
    let a = (decide_auto_allow_iff letters i).0 h in
    let asked =
      any-mem (λ x. x.always_ask && covers_ignoring_window x.scope i.scope.scope) i.learned g m
        (ground arith) in
    ground (arith, a.not_asking, asked)
