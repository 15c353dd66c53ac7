-- ===== src/Pipeline/Resolution.antt =====
-- internal/core/pipeline/pipeline.go: what the first half of `Handle` comes to.
use open_delo.Prelude.{ℕ, ◌≡◌, List}
use open_delo.Platform.AppError.{Code, err, ok}
use open_delo.Risk.Engine.{evaluate}
use open_delo.Scope.Resolver.{ScopeResult, resolve}
use open_delo.Intent.Resolver as Intents
use open_delo.Decision.FailClosed.{
  Blocker, capability_not_offered, policy_engine_failure, scope_undeterminable, risk_unknown,
  ActiveLease,
}
use open_delo.Intent.Structured.{Intent}
use open_delo.Matcher.Matching.{MatchResult}
use open_delo.Trust.Memories.{Memory}
use open_delo.Pipeline.Calls.{failed, done, History}
use open_delo.Pipeline.Services.{Pipeline}
use open_delo.Pipeline.Inputs.{Inputs, Resolved, Step, blocked, passed}
use open_delo.Pipeline.Resolving.{matched_identity, scope_input, factors, input_of}

-- The intent of the call, and the memories that some call of the service gave for it.
unfoldable pub Parsed : Pipeline → Inputs → Intent → List Memory → Type 0
Parsed p inputs parsed grants =
    (Intents.resolve p.catalog_codec p.patterns inputs.catalog inputs.call ≡ ok parsed)
    × (history : History) × (p.services.match_memories history inputs.request.agent_id
          inputs.request.workspace_id parsed.service
        ≡ done grants)

-- Why a request could not be resolved: a step failed, on what the steps before it gave.
pub data Failed (p : Pipeline) (inputs : Inputs) (b : Blocker) : Type 0 where
  no_intent :
      (code : Code)
      → Intents.resolve p.catalog_codec p.patterns inputs.catalog inputs.call ≡ err code
      → b ≡ capability_not_offered
      → Failed p inputs b
  no_memories :
      (parsed : Intent) (history : History) (code : Code)
      → Intents.resolve p.catalog_codec p.patterns inputs.catalog inputs.call ≡ ok parsed
      → p.services.match_memories history inputs.request.agent_id inputs.request.workspace_id
          parsed.service
        ≡ failed code
      → b ≡ policy_engine_failure
      → Failed p inputs b
  no_identity :
      (parsed : Intent) (grants : List Memory)
      → Parsed p inputs parsed grants
      → matched_identity p inputs parsed grants ≡ blocked b
      → Failed p inputs b
  no_scope :
      (parsed : Intent) (grants : List Memory) (matched : MatchResult) (now : ℕ) (code : Code)
      → Parsed p inputs parsed grants
      → matched_identity p inputs parsed grants ≡ passed matched
      → resolve p.letters now (scope_input inputs parsed matched) ≡ err code
      → b ≡ scope_undeterminable
      → Failed p inputs b
  no_leases :
      (history : History) (code : Code)
      → p.services.active_leases history ≡ failed code
      → b ≡ policy_engine_failure
      → Failed p inputs b
  no_risk :
      (parsed : Intent) (grants : List Memory) (matched : MatchResult) (now : ℕ)
      (converged : ScopeResult) (code : Code)
      → Parsed p inputs parsed grants
      → matched_identity p inputs parsed grants ≡ passed matched
      → resolve p.letters now (scope_input inputs parsed matched) ≡ ok converged
      → evaluate (factors p inputs parsed converged.scope grants) ≡ err code
      → b ≡ risk_unknown
      → Failed p inputs b

-- What was resolved follows from the request, step by step: the intent from the call, the identity
-- from the intent and the memories, the scope from both at the time of the clock, the risk from all
-- of these; and the input of the decision is made of them. A request that is blocked has a step that
-- failed.
unfoldable pub Consistent : Pipeline → Inputs → Step Resolved → Type 0
Consistent p inputs (blocked b) = Failed p inputs b
Consistent p inputs (passed out) =
    (parsed : Intent) × (now : ℕ) × (active : List ActiveLease) × (Intents.resolve p.catalog_codec
        p.patterns inputs.catalog inputs.call
      ≡ ok parsed)
    × (matched_identity p inputs parsed out.grants ≡ passed out.matched)
    × (resolve p.letters now (scope_input inputs parsed out.matched) ≡ ok out.scope)
    × (evaluate (factors p inputs parsed out.scope.scope out.grants) ≡ ok out.risk)
    × (out.input ≡ input_of p inputs parsed out.grants out.matched out.scope active out.risk)
