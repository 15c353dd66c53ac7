-- ===== src/Pipeline/Revoked.antt =====
-- internal/core/pipeline/{agent,identity}.go: the leases that a cascade revoked, and the calls that did.
use open_delo.Prelude.{All, ap, length, contradiction, suc, ◌≡◌, refl, List, [], ◌∷◌, Memᴰ, arith}
use open_delo.Lease.Rows.{Lease}
use open_delo.Pipeline.Calls.{
  Answer, panicked, failed, done, Call, History, Run, audited, agent_disconnected,
  bound_leases_read, issued_leases_read, identity_read, memories_invalidated, identity_marked,
  approval_settled, approvals_due_read, decision_read, request_read, memory_read, memory_deleted,
}
use open_delo.Pipeline.Calls

-- Each lease of the first list was revoked, with the answer at its place in the second.
unfoldable pub Revoked : List Lease → List Lease → History → Type 0
Revoked [] [] history = Unit
Revoked (l ∷ ls) (r ∷ rs) history =
    Memᴰ (Calls.lease_revoked l.id (done r)) history × Revoked ls rs history
Revoked _ _ history = ⊥

-- The calls of which it speaks.
unfoldable pub revocations : List Lease → List Lease → List Call
revocations [] rs = []
revocations (l ∷ ls) [] = []
revocations (l ∷ ls) (r ∷ rs) = Calls.lease_revoked l.id (done r) ∷ revocations ls rs

unfoldable pub Paired : List Lease → List Lease → Type 0
Paired ls rs = length ls ≡ length rs

pub Revoked-calls :
    (ls rs : List Lease) (history : History)
    → Revoked ls rs history
    → Paired ls rs × All (λ c. Memᴰ c history) (revocations ls rs)
unfolding Revoked revocations Paired
Revoked-calls [] [] history done_all = (refl, tt)
Revoked-calls [] (r ∷ rs) history done_all = contradiction done_all
Revoked-calls (l ∷ ls) [] history done_all = contradiction done_all
Revoked-calls (l ∷ ls) (r ∷ rs) history (one, rest) =
    let (same, all) = Revoked-calls ls rs history rest in (ap suc same, (one, all))

pub calls-Revoked :
    (ls rs : List Lease) (history : History)
    → Paired ls rs
    → All (λ c. Memᴰ c history) (revocations ls rs)
    → Revoked ls rs history
unfolding Revoked revocations Paired
calls-Revoked [] [] history same all = tt
calls-Revoked [] (r ∷ rs) history same all = ground (arith, same)
calls-Revoked (l ∷ ls) [] history same all = ground (arith, same)
calls-Revoked (l ∷ ls) (r ∷ rs) history same (one, all) =
    (one, calls-Revoked ls rs history (ground (arith, same)) all)
