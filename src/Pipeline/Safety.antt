-- ===== src/Pipeline/Safety.antt =====
-- internal/core/pipeline/pipeline.go: no lease without a permission on record, and none without the
-- verdict of the decision engine.
use open_delo.Prelude.{
  any, ◌≡◌, refl, ap, subst, true, false, some, List, [], ◌∷◌, ◌++◌, Memᴰ, arith, contradiction,
}
use open_delo.Decision.Verdicts.{Verdict, auto_allow, require_approval, deny}
use open_delo.Decision.Engine.{Outcome, decide}
use open_delo.Lease.Rows.{text_of, Lease}
use open_delo.Pipeline.Requests.{Decision}
use open_delo.Pipeline.Calls.{Answer, panicked, failed, done, Call, History, Run, call}
use open_delo.Pipeline.Services.{Pipeline}
use open_delo.Pipeline.Inputs.{passed, Inputs, Resolved}
use open_delo.Pipeline.Handling.{Handled, handle}
use open_delo.Pipeline.Protocol.{fresh, issuing, refused}
use open_delo.Pipeline.Runs.{Triple, InTurn, Ends, Past}
use open_delo.Pipeline.Resolution.{Consistent}
use open_delo.Pipeline.Steps.{taken}
use open_delo.Pipeline.Endings.{
  Ended, Concluded, closed, judged, whole_run, at_start, handle-Concluded,
}
use open_delo.Pipeline.Settling.{SettleInput, SettleResult, settle_approval}
use open_delo.Pipeline.Answers.{Settled, repeated, rejected, approved, settled}
use open_delo.Pipeline.Order.{is_release, permits, InTurn-suffix, release-permits}

module _ (p : Pipeline) (inputs : Inputs) where
  Ended-InTurn :
      (out : Resolved) (written : Decision) (calls : List Call) (v : Verdict) (r : Handled)
      (history : History)
      → Ended inputs out (decide p.letters out.input) written calls v r history
      → InTurn history
  unfolding Ended Past InTurn
  Ended-InTurn out written calls deny r history (same, past) = (refused, past.0)
  Ended-InTurn out written calls require_approval r history (item, same, past) = (refused, past.0)
  Ended-InTurn out written calls auto_allow r history (l, same, past) = (issuing, past.0)

  Concluded-InTurn :
      (r : Handled) (history : History) → Concluded p inputs r history → InTurn history
  unfolding Past InTurn
  Concluded-InTurn r history (closed b cause same past) = (refused, past.0)
  Concluded-InTurn r history (judged out written d fits e end) =
      Ended-InTurn out written _ _ r history end

pub end-InTurn :
    {Value : Type 0} (Q : Value → History → Type 0) (end : History × Answer Value)
    → Ends Q end
    → ((v : Value) (history : History) → Q v history → InTurn history)
    → InTurn end.0
unfolding Ends
end-InTurn Q (history, panicked) e turn = e
end-InTurn Q (history, failed code) e turn = e
end-InTurn Q (history, done v) e turn = turn v history e

run-permits :
    {Value : Type 0} {P : History → Type 0} {m : Run Value} {Q : Value → History → Type 0}
    → Triple P m Q
    → P []
    → ((v : Value) (history : History) → Q v history → InTurn history)
    → (after before : History) (c : Call) → (m []).0 ≡ after ++ c ∷ before
    → is_release c ≡ true
    → (any permits before ≡ true) × (any is_release before ≡ false)
run-permits triple at turn after before c e r =
    let ordered = end-InTurn _ _ (triple.ends [] at) turn in
    release-permits c before (InTurn-suffix after (c ∷ before) (subst InTurn e ordered)) r

-- However the services answer and however the run ends, an error or a panic included: where it asks
-- for a lease, a permission was put on record before, and no lease was asked for before, so that
-- one request gets one lease at most.
pub handle-permits :
    (p : Pipeline) (inputs : Inputs) (after before : History) (c : Call)
    → (handle p inputs []).0 ≡ after ++ c ∷ before
    → is_release c ≡ true
    → (any permits before ≡ true) × (any is_release before ≡ false)
handle-permits p inputs after before c e r =
    run-permits (whole_run p inputs) refl (Concluded-InTurn p inputs) after before c e r

Ended-lease :
    (inputs : Inputs) (out : Resolved) (o : Outcome) (written : Decision) (calls : List Call)
    (v : Verdict) (r : Handled) (history : History) (l : Lease)
    → Ended inputs out o written calls v r history
    → r.lease ≡ some l
    → (v ≡ auto_allow) × Memᴰ (taken out written (text_of o.matched_lease_id) l) history
unfolding Ended Past
Ended-lease inputs out o written calls deny r history l (same, past) e =
    let nothing = ap (λ x. x.lease) same in contradiction (ground (arith, nothing, e))
Ended-lease inputs out o written calls require_approval r history l (item, same, past) e =
    let nothing = ap (λ x. x.lease) same in contradiction (ground (arith, nothing, e))
Ended-lease inputs out o written calls auto_allow r history l (l', same, past) e =
    let given = ap (λ x. x.lease) same in
    let equal : l' ≡ l = ground (arith, given, e) in
    let reused = text_of o.matched_lease_id in
    (refl, subst (λ k. Memᴰ (taken out written reused k) history) equal past.1.1.0)

Concluded-lease :
    (p : Pipeline) (inputs : Inputs) (r : Handled) (history : History) (l : Lease)
    → Concluded p inputs r history
    → r.lease ≡ some l
    → (out : Resolved) × (written : Decision) × ((decide p.letters out.input).verdict ≡ auto_allow)
      × Consistent p inputs (passed out)
      × Memᴰ (taken out written (text_of (decide p.letters out.input).matched_lease_id) l) history
unfolding Consistent
Concluded-lease p inputs r history l (closed b cause same past) e =
    let nothing = ap (λ x. x.lease) same in contradiction (ground (arith, nothing, e))
Concluded-lease p inputs r history l (judged out written d fits same end) e =
    let (allowed, call) =
      Ended-lease inputs out (decide p.letters out.input) written _ _ r history l end e in
    (out, written, allowed, fits, call)

-- A lease comes back only where the decision engine allows automatically what was resolved from the
-- request: the intent of the call, the identity matched for it, the scope of both and its risk. And
-- it is the answer of the lease manager, which was asked for that scope or for the lease that the
-- engine named.
pub handle-lease :
    (p : Pipeline) (inputs : Inputs) (r : Handled) (history : History) (l : Lease)
    → handle p inputs [] ≡ (history, done r)
    → r.lease ≡ some l
    → (out : Resolved) × (written : Decision) × ((decide p.letters out.input).verdict ≡ auto_allow)
      × Consistent p inputs (passed out)
      × Memᴰ (taken out written (text_of (decide p.letters out.input).matched_lease_id) l) history
handle-lease p inputs r history l e lease =
    Concluded-lease p inputs r history l (handle-Concluded p inputs r history e) lease

Settled-InTurn :
    (p : Pipeline) (input : SettleInput) (r : SettleResult) (history : History)
    → Settled p input r history
    → InTurn history
unfolding InTurn Past
Settled-InTurn p input r history
      (repeated settlement request seen read again same live nothing past) =
    (fresh, past.0)
Settled-InTurn p input r history
      (rejected settlement granted request seen read answered a l m past) =
    (refused, past.0)
Settled-InTurn p input r history
      (approved settlement granted request l t seen on_record answered a d w read e past) =
    (issuing, past.0)

-- The same of an answer of the user: where it asks for a lease, a permission was put on record
-- before, and no lease was asked for before.
pub settle_approval-permits :
    (p : Pipeline) (input : SettleInput) (after before : History) (c : Call)
    → (settle_approval p input []).0 ≡ after ++ c ∷ before
    → is_release c ≡ true
    → (any permits before ≡ true) × (any is_release before ≡ false)
settle_approval-permits p input after before c e r =
    run-permits (settled p input) at_start (Settled-InTurn p input) after before c e r
