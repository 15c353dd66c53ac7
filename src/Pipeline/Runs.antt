-- ===== src/Pipeline/Runs.antt =====
-- internal/core/pipeline: rules to show that a run makes its calls in their order.
use open_delo.Prelude.{
  All-map, ◌≡◌, refl, Bool, true, false, some, List, [], ◌∷◌, Memᴰ, if◌then◌else◌, All,
}
use open_delo.Platform.AppError.{Code, Result, err, ok}
use open_delo.Pipeline.Calls.{
  Answer, panicked, failed, done, Call, History, Run, return, fail, panic, lift, attempt, call,
  ◌>>=◌, ◌>>◌, recover,
}
use open_delo.Pipeline.Protocol.{Phase, after_call, phase, phase_next}

-- Every call came in its turn.
unfoldable pub InTurn : History → Type 0
InTurn history = (s : Phase) × (phase history ≡ some s)

-- What holds after a run that ends with a value; the calls of all others came in their turn.
unfoldable pub Ends {ℓ} :
    {Value : Type ℓ} → (Value → History → Type 0) → History × Answer Value → Type 0
Ends Q (history, panicked) = InTurn history
Ends Q (history, failed _) = InTurn history
Ends Q (history, done v) = Q v history

-- A run from a history with `P`.
pub record Triple {ℓ} {Value : Type ℓ} (P : History → Type 0) (m : Run Value)
    (Q : Value → History → Type 0) : Type ℓ where
  pub ends : (history : History) → P history → Ends Q (m history)

abbrev pub At : Phase → History → Type 0
At s history = phase history ≡ some s

module _ {κ ℓ} {Before : Type κ} {After : Type ℓ} where
  after_done :
      (Q : Before → History → Type 0) (R : After → History → Type 0) (next : Before → Run After)
      (end : History × Answer Before)
      → Ends Q end
      → ((v : Before) → Triple (Q v) (next v) R)
      → Ends R (elim end.1 [
        | panicked ↦ (end.0, panicked)
        | failed code ↦ (end.0, failed code)
        | done v ↦ next v end.0
      ])
  unfolding Ends
  after_done Q R next (history, panicked) q t = q
  after_done Q R next (history, failed _) q t = q
  after_done Q R next (history, done v) q t = (t v).ends history q

  -- One step after another.
  pub then_step :
      {P : History → Type 0} {m : Run Before} {Q : Before → History → Type 0}
      {next : Before → Run After} {R : After → History → Type 0}
      → Triple P m Q
      → ((v : Before) → Triple (Q v) (next v) R)
      → Triple P (m >>= next) R
  unfolding ◌>>=◌
  then_step first later = record {
    ends = λ history p. after_done _ _ _ _ (first.ends history p) later;
  }

  pub then_next :
      {P : History → Type 0} {m : Run Before} {Q : Before → History → Type 0} {next : Run After}
      {R : After → History → Type 0}
      → Triple P m Q
      → ((v : Before) → Triple (Q v) next R)
      → Triple P (m >> next) R
  unfolding ◌>>◌
  then_next first later = then_step first later

-- The phase of a history, and calls that are in it.
unfoldable pub Past : Phase → List Call → History → Type 0
Past s calls history = At s history × All (λ c. Memᴰ c history) calls

module _ {ℓ} {Value : Type ℓ} where
  Ends-map :
      (Q R : Value → History → Type 0) (end : History × Answer Value)
      → Ends Q end
      → ((v : Value) (history : History) → Q v history → R v history)
      → Ends R end
  unfolding Ends
  Ends-map Q R (history, panicked) q f = q
  Ends-map Q R (history, failed code) q f = q
  Ends-map Q R (history, done v) q f = f v history q

  pub weaken :
      {P : History → Type 0} {m : Run Value} {Q R : Value → History → Type 0}
      → Triple P m Q
      → ((v : Value) (history : History) → Q v history → R v history)
      → Triple P m R
  weaken triple f = record { ends = λ history p. Ends-map _ _ _ (triple.ends history p) f }

  Past-Ends :
      (s t : Phase) (calls : List Call) (entry : Answer Value → Call) (a : Answer Value)
      (history : History)
      → ((code : Answer Value) → InTurn (entry code ∷ history))
      → ((v : Value) → At t (entry (done v) ∷ history))
      → All (λ c. Memᴰ c history) calls
      → Ends (λ v. Past t (entry (done v) ∷ calls)) (entry a ∷ history, a)
  unfolding Ends Past
  Past-Ends s t calls entry panicked history turn right ms = turn panicked
  Past-Ends s t calls entry (failed code) history turn right ms = turn (failed code)
  Past-Ends s t calls entry (done v) history turn right ms =
      (right v, (Memᴰ.head refl, All-map _ _ calls (λ c m. Memᴰ.tail m) ms))

  -- A call that comes in its turn, whatever the answer, is in the history afterwards.
  pub one_call :
      (s t : Phase) (calls : List Call) (service : History → Answer Value)
      (entry : Answer Value → Call)
      → ((a : Answer Value) → (t' : Phase) × (after_call (entry a) s ≡ some t'))
      → ((v : Value) → after_call (entry (done v)) s ≡ some t)
      → Triple (Past s calls) (call service entry) (λ v. Past t (entry (done v) ∷ calls))
  unfolding Past InTurn call
  one_call s t calls service entry turn right = record {
    ends = λ history past.
        Past-Ends s t calls entry (service history) history
          (λ a. let (t', e) = turn a in (t', phase_next (entry a) history s t' past.0 e))
          (λ v. phase_next (entry (done v)) history s t past.0 (right v)) past.1;
  }

  -- The same without the fact that it was made.
  pub quiet_call :
      (s : Phase) (calls : List Call) (service : History → Answer Value)
      (entry : Answer Value → Call)
      → ((a : Answer Value) → after_call (entry a) s ≡ some s)
      → Triple (Past s calls) (call service entry) (λ _. Past s calls)
  unfolding Past
  quiet_call s calls service entry turn =
      weaken (one_call s s calls service entry (λ a. (s, turn a)) (λ v. turn (done v)))
        (λ v history past. (past.0, past.1.1))

  -- A value that is there already.
  pub no_call : (Q : Value → History → Type 0) (v : Value) → Triple (Q v) (return v) Q
  unfolding Ends return
  no_call Q v = record { ends = λ history p. p }

  pub returned :
      {P : History → Type 0} {Q : Value → History → Type 0} (v : Value)
      → ((history : History) → P history → Q v history)
      → Triple P (return v) Q
  unfolding Ends return
  returned v f = record { ends = f }

  pub gave_up :
      (s : Phase) (calls : List Call) (code : Code) (Q : Value → History → Type 0)
      → Triple (Past s calls) (fail code) Q
  unfolding Ends Past InTurn fail
  gave_up s calls code Q = record { ends = λ history past. (s, past.0) }

  pub panics :
      (s : Phase) (calls : List Call) (Q : Value → History → Type 0) → Triple (Past s calls) panic Q
  unfolding Ends Past InTurn panic
  panics s calls Q = record { ends = λ history past. (s, past.0) }

  pub strengthen :
      {P R : History → Type 0} {m : Run Value} {Q : Value → History → Type 0}
      → Triple P m Q
      → ((history : History) → R history → P history)
      → Triple R m Q
  strengthen triple f = record { ends = λ history r. triple.ends history (f history r) }

  -- A function that may return an error, and makes no call.
  pub lifted :
      (s : Phase) (calls : List Call) (r : Result Value)
      → Triple (Past s calls) (lift r) (λ v. Past s calls)
  unfolding Ends Past InTurn lift
  lifted s calls (err code) = record { ends = λ history past. (s, past.0) }
  lifted s calls (ok v) = record { ends = λ history past. past }

  after_panic :
      (Q : Value → History → Type 0) (rescue : Run Value) (end : History × Answer Value)
      → Ends Q end
      → ((s : Phase) (left : History) → end ≡ (left, panicked) → Triple (Past s []) rescue Q)
      → Ends Q (elim end.1 [
        | panicked ↦ rescue end.0
        | failed code ↦ (end.0, failed code)
        | done v ↦ (end.0, done v)
      ])
  unfolding Ends Past InTurn
  after_panic Q rescue (history, panicked) (s, e) t = (t s history refl).ends history (e, tt)
  after_panic Q rescue (history, failed code) q t = q
  after_panic Q rescue (history, done v) q t = q

  -- A fact that does not depend on the history.
  pub given :
      {Fact : Type 0} {P : History → Type 0} {m : Run Value} {Q : Value → History → Type 0}
      → (Fact → Triple P m Q)
      → Triple (λ history. Fact × P history) m Q
  given f = record { ends = λ history fact. (f fact.0).ends history fact.1 }

  -- What the caller handles itself: an error is a value.
  attempted :
      (Q : History → Type 0) (history : History) (a : Answer Value)
      → InTurn history
      → Q history
      → Ends {Value = Result Value}
          (λ _. Q)
          (elim a [
            | panicked ↦ (history, panicked)
            | failed code ↦ (history, done (err code))
            | done v ↦ (history, done (ok v))
          ])
  unfolding Ends
  attempted Q history panicked turn q = turn
  attempted Q history (failed code) turn q = q
  attempted Q history (done v) turn q = q

  -- A call outside the order, whose error is a value.
  pub quiet_attempt :
      (s : Phase) (calls : List Call) (service : History → Answer Value)
      (entry : Answer Value → Call)
      → ((a : Answer Value) → after_call (entry a) s ≡ some s)
      → Triple (Past s calls) (attempt (call service entry)) (λ _. Past s calls)
  unfolding Past InTurn attempt call
  quiet_attempt s calls service entry turn = record {
    ends = λ history past.
        let same =
          phase_next (entry (service history)) history s s past.0 (turn (service history)) in
        attempted (Past s calls) (entry (service history) ∷ history) (service history) (s, same)
          (same, All-map _ _ calls (λ c m. Memᴰ.tail m) past.1);
  }

  -- A deferred `recover`, from whatever the panic left behind.
  pub recovered :
      {P : History → Type 0} {m rescue : Run Value} {Q : Value → History → Type 0}
      → Triple P m Q
      → ((s : Phase) (history left : History)
          → P history
          → m history ≡ (left, panicked)
          → Triple (Past s []) rescue Q)
      → Triple P (recover m rescue) Q
  unfolding recover
  recovered first later = record {
    ends = λ history p.
        after_panic _ _ _ (first.ends history p) (λ s left e. later s history left p e);
  }

  pub branch :
      {P : History → Type 0} {m n : Run Value} {Q : Value → History → Type 0} (test : Bool)
      → (test ≡ true → Triple P m Q)
      → (test ≡ false → Triple P n Q)
      → Triple P (if test then m else n) Q
  branch true if_so if_not = if_so refl
  branch false if_so if_not = if_not refl

  -- A value that the history has.
  pub given_some :
      {Some : Type 0} {P : Some → History → Type 0} {m : Run Value} {Q : Value → History → Type 0}
      → ((x : Some) → Triple (P x) m Q)
      → Triple (λ history. (x : Some) × P x history) m Q
  given_some f = record { ends = λ history fact. (f fact.0).ends history fact.1 }

module _ {Value : Type 0} where
  pub lifted_value :
      (s : Phase) (calls : List Call) (r : Result Value)
      → Triple (Past s calls) (lift r) (λ v history. (r ≡ ok v) × Past s calls history)
  unfolding Ends Past InTurn lift
  lifted_value s calls (err code) = record { ends = λ history past. (s, past.0) }
  lifted_value s calls (ok v) = record { ends = λ history past. (refl, past) }

  -- What is known of a service by the error or the value that a call of it gave.
  unfoldable pub Attempted : (History → Answer Value) → Result Value → Type 0
  Attempted service (err code) = (history : History) × (service history ≡ failed code)
  Attempted service (ok v) = (history : History) × (service history ≡ done v)

  known_attempt :
      (service : History → Answer Value) (Q : History → Type 0) (before history : History)
      (a : Answer Value)
      → service before ≡ a
      → InTurn history
      → Q history
      → Ends {Value = Result Value}
          (λ found later. Attempted service found × Q later)
          (elim a [
            | panicked ↦ (history, panicked)
            | failed code ↦ (history, done (err code))
            | done v ↦ (history, done (ok v))
          ])
  unfolding Ends Attempted
  known_attempt service Q before history panicked e turn q = turn
  known_attempt service Q before history (failed code) e turn q = ((before, e), q)
  known_attempt service Q before history (done v) e turn q = ((before, e), q)

  pub tried :
      (s : Phase) (calls : List Call) (service : History → Answer Value)
      (entry : Answer Value → Call)
      → ((a : Answer Value) → after_call (entry a) s ≡ some s)
      → Triple
          (Past s calls)
          (attempt (call service entry))
          (λ found history. Attempted service found × Past s calls history)
  unfolding Past InTurn attempt call
  tried s calls service entry turn = record {
    ends = λ history past.
        let same =
          phase_next (entry (service history)) history s s past.0 (turn (service history)) in
        known_attempt service (Past s calls) history (entry (service history) ∷ history)
          (service history) refl (s, same) (same, All-map _ _ calls (λ c m. Memᴰ.tail m) past.1);
  }
