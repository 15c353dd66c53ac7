-- ===== src/Pipeline/Turns.antt =====
-- internal/core/pipeline/pipeline.go: every run makes its calls in their order.
use open_delo.Prelude.{
  ℕ, sym, contradiction, arith, String, ◌≡◌, refl, some, List, ◌∷◌, Memᴰ, All-map,
}
use open_delo.Platform.AppError.{Code, Result, err, ok}
use open_delo.Scope.Resolver.{resolve}
use open_delo.Intent.Resolver as Intents
use open_delo.Decision.FailClosed.{
  Blocker, capability_not_offered, policy_engine_failure, scope_undeterminable,
}
use open_delo.Intent.Structured.{Intent}
use open_delo.Matcher.Matching.{MatchResult}
use open_delo.Pipeline.Calls.{
  Answer, failed, done, Call, clock_read, memories_read, leases_read, History, Run, return, attempt,
  call, ◌>>=◌,
}
use open_delo.Pipeline.Services.{Pipeline}
use open_delo.Pipeline.Inputs.{Inputs, Step, blocked, passed, ◌>>?◌, if_passed, or_blocked}
use open_delo.Pipeline.Resolving.{
  read_clock, scope_input, learned, standing, converged_scope, resolve_request, parsed_intent,
  is_internal,
}
use open_delo.Pipeline.Resolution.{
  Parsed, no_intent, no_memories, no_identity, no_scope, no_leases, no_risk, Consistent,
}
use open_delo.Pipeline.Protocol.{Phase, after_call, phase_next}
use open_delo.Pipeline.Runs.{
  Ends, Triple, Past, Attempted, then_step, returned, given, panics, tried, branch,
}

or_blocked-ok :
    {A : Type 0} (b : Blocker) (r : Result A) (a : A) → passed a ≡ or_blocked b r → r ≡ ok a
or_blocked-ok b (err code) a e = contradiction (ground (arith, e))
or_blocked-ok b (ok v) a e = ground (arith, e)

blocked-err :
    {A : Type 0} (b c : Blocker) (r : Result A)
    → blocked c ≡ or_blocked b r
    → (code : Code) × (r ≡ err code) × (c ≡ b)
blocked-err b c (err code) e = (code, refl, ground (arith, e))
blocked-err b c (ok v) e = contradiction (ground (arith, e))

module _ (p : Pipeline) (s : Phase) (calls : List Call) where
  pub quiet_clock : Triple (Past s calls) (read_clock p) (λ _. Past s calls)
  unfolding Past Ends after_call
  quiet_clock = record {
    ends = λ history past. (
      phase_next (clock_read (p.services.now history)) history s s past.0 refl,
      All-map _ _ calls (λ c m. Memᴰ.tail m) past.1,
    );
  }

  pub timed : Triple (Past s calls) (read_clock p) (λ now. Past s (clock_read now ∷ calls))
  unfolding Past Ends after_call
  timed = record {
    ends = λ history past. (
      phase_next (clock_read (p.services.now history)) history s s past.0 refl,
      (Memᴰ.head refl, All-map _ _ calls (λ c m. Memᴰ.tail m) past.1),
    );
  }

  known_return :
      {A : Type 0} (a : A)
      → Triple (Past s calls) (return a) (λ w history. (w ≡ a) × Past s calls history)
  known_return a = returned a (λ history past. (refl, past))

  -- `if blocker != ""`, where `Known` holds of the step before.
  module _ {A B : Type 0} (C : Step B → Type 0) where
    unblocked :
        (Known : Step A → Type 0)
        → ((b : Blocker) → Known (blocked b) → C (blocked b))
        → (next : A → Run (Step B))
        → ((a : A)
            → Known (passed a)
            → Triple (Past s calls) (next a) (λ step history. C step × Past s calls history))
        → (step : Step A) → Known step
        → Triple
            (Past s calls)
            (if_passed next step)
            (λ step history. C step × Past s calls history)
    unfolding if_passed
    unblocked Known stop next later (blocked b) k = returned _ (λ history past. (stop b k, past))
    unblocked Known stop next later (passed a) k = later a k

    then_unblocked :
        (Known : Step A → Type 0)
        → ((b : Blocker) → Known (blocked b) → C (blocked b))
        → (m : Run (Step A)) (next : A → Run (Step B))
        → Triple (Past s calls) m (λ step history. Known step × Past s calls history)
        → ((a : A)
            → Known (passed a)
            → Triple (Past s calls) (next a) (λ step history. C step × Past s calls history))
        → Triple (Past s calls) (m >>? next) (λ step history. C step × Past s calls history)
    unfolding ◌>>?◌
    then_unblocked Known stop m next first later =
        then_step first (λ step. given (λ k. unblocked Known stop next later step k))

  -- What a call for some data gives: the data, or the blocker where some history has it fail.
  abbrev Answered : {A : Type 0} → (History → Answer A) → Step A → Type 0
  Answered service (blocked b) =
      (history : History) × (code : Code) × (service history ≡ failed code)
      × (b ≡ policy_engine_failure)
  Answered service (passed a) = (history : History) × (service history ≡ done a)

  -- The same of what is made of the data.
  abbrev Unread : {A B : Type 0} → (History → Answer A) → Step B → Type 0
  Unread service (blocked b) =
      (history : History) × (code : Code) × (service history ≡ failed code)
      × (b ≡ policy_engine_failure)
  Unread service (passed v) = Unit

  or_blocked-Answered :
      {A : Type 0} (service : History → Answer A) (r : Result A)
      → Attempted service r
      → Answered service (or_blocked policy_engine_failure r)
  unfolding Attempted
  or_blocked-Answered service (err code) (history, e) = (history, code, e, refl)
  or_blocked-Answered service (ok a) k = k

  answered :
      {A : Type 0} (service : History → Answer A) (entry : Answer A → Call)
      → ((a : Answer A) → after_call (entry a) s ≡ some s)
      → Triple
          (Past s calls)
          (attempt (call service entry) >>= λ found.
            return (or_blocked policy_engine_failure found))
          (λ step history. Answered service step × Past s calls history)
  answered service entry turn = then_step (tried s calls service entry turn) (λ found.
      given (λ k. returned _ (λ history past. (or_blocked-Answered service found k, past))))

  known_standing :
      (agent service : String)
      → Triple
          (Past s calls)
          (standing p agent service)
          (λ step history. Unread p.services.active_leases step × Past s calls history)
  unfolding standing after_call
  known_standing agent service =
      then_unblocked (Unread p.services.active_leases) (Answered p.services.active_leases)
        (λ b k. k) _ _ (answered p.services.active_leases leases_read (λ a. refl))
        (λ active k. then_step quiet_clock (λ now. returned _ (λ history past. (tt, past))))

  known_learned :
      (agent workspace service : String)
      → Triple (Past s calls) (learned p agent workspace service) (λ step history.
        Answered (λ h. p.services.match_memories h agent workspace service) step
        × Past s calls history)
  unfolding learned after_call
  known_learned agent workspace service = answered _ memories_read (λ a. refl)

  known_intent :
      (r : Result Intent)
      → Triple
          (Past s calls)
          (parsed_intent r)
          (λ step history. (step ≡ or_blocked capability_not_offered r) × Past s calls history)
  unfolding parsed_intent
  known_intent (ok i) = known_return _
  known_intent (err code) =
      branch (is_internal code) (λ broken. panics s calls _) (λ fine. known_return _)

  timed_scope :
      (inputs : Inputs) (parsed : Intent) (matched : MatchResult)
      → Triple (Past s calls) (converged_scope p inputs parsed matched) (λ step history.
        ((now : ℕ) × (step
            ≡ or_blocked scope_undeterminable
                (resolve p.letters now (scope_input inputs parsed matched))))
        × Past s calls history)
  unfolding converged_scope
  timed_scope inputs parsed matched =
      then_step quiet_clock (λ now. returned _ (λ history past. ((now, refl), past)))

  -- What comes before the decision only reads, and what was resolved follows from the request.
  pub resolve_request_quiet :
      (inputs : Inputs)
      → Triple
          (Past s calls)
          (resolve_request p inputs)
          (λ step history. Consistent p inputs step × Past s calls history)
  unfolding resolve_request Consistent Parsed
  resolve_request_quiet inputs =
      let C = Consistent p inputs in
      let read = Intents.resolve p.catalog_codec p.patterns inputs.catalog inputs.call in
      then_unblocked C (λ step. step ≡ or_blocked capability_not_offered read)
        (λ b e. let (code, off, same) = blocked-err _ b read e in no_intent code off same) _ _
        (known_intent read)
        (λ parsed e.
          let parsed_ok = or_blocked-ok _ _ parsed e in
          then_unblocked C _
            (λ b k. let (h, code, off, same) = k in no_memories parsed h code parsed_ok off same) _
            _ (known_learned _ _ _)
            (λ grants k.
              then_unblocked C _
                (λ b off. no_identity parsed grants (parsed_ok, k.0, k.1) (sym off)) _ _
                (known_return _)
                (λ matched matched_ok.
                  then_unblocked C _
                    (λ b at.
                      let (code, off, same) = blocked-err _ b _ at.1 in
                      no_scope parsed grants matched at.0 code (parsed_ok, k.0, k.1)
                        (sym matched_ok) off same)
                    _ _ (timed_scope inputs parsed matched)
                    (λ converged at.
                      then_unblocked C _
                        (λ b read_off.
                          let (h, code, off, same) = read_off in no_leases h code off same)
                        _ _ (known_standing _ _)
                        (λ active k'.
                          then_unblocked C _
                            (λ b judged.
                              let (code, off, same) = blocked-err _ b _ judged in
                              no_risk parsed grants matched at.0 converged code
                                (parsed_ok, k.0, k.1) (sym matched_ok)
                                (or_blocked-ok _ _ converged at.1) off same)
                            _ _ (known_return _)
                            (λ assessment judged. returned _ (λ history past. (
                              (
                                parsed,
                                at.0,
                                active,
                                parsed_ok,
                                sym matched_ok,
                                or_blocked-ok _ _ converged at.1,
                                or_blocked-ok _ _ assessment judged,
                                refl,
                              ),
                              past,
                            ))))))))
