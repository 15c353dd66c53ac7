-- ===== src/Pipeline/Resolving.antt =====
-- internal/core/pipeline/pipeline.go: the steps before the decision.
use open_delo.Prelude.{
  ℕ, String, Bool, true, false, ◌&&◌, ◌||◌, not, List, [], ◌∷◌, map, ◌==◌, ltb, if◌then◌else◌,
}
use open_delo.Prelude.Int.{pos, is_num}
use open_delo.Platform.AppError.{Code, internal, Result, err, ok}
use open_delo.Risk.Factors.{Factors}
use open_delo.Risk.Engine.{Assessment, evaluate}
use open_delo.Matcher.Identity.{production}
use open_delo.Matcher.Matching.{MatchResult, match_identity, is_nil}
use open_delo.Scope.Dimensions.{Scope, covers_ignoring_window, filled, same_environment}
use open_delo.Scope.Resolver.{ScopeInput, ScopeResult, resolve}
use open_delo.Decision.FailClosed.{
  capability_not_offered, policy_engine_failure, identity_ambiguity_unresolvable,
  scope_undeterminable, risk_unknown, Grant, ActiveLease, Input,
}
use open_delo.Approval.Items.{Behavior, always_ask}
use open_delo.Lease.Rows.{Lease}
use open_delo.Lease.Manager.{decode_grant}
use open_delo.Trust.Memories.{Memory}
use open_delo.Trust.Manager.{scope_of}
use open_delo.Intent.Structured.{Intent}
use open_delo.Intent.Resolver as Intents
use open_delo.Pipeline.Calls.{
  done, clock_read, memories_read, leases_read, Run, return, panic, attempt, call, ◌>>=◌,
}
use open_delo.Pipeline.Inputs.{Inputs, Resolved, Step, blocked, passed, or_blocked, ◌>>?◌}
use open_delo.Pipeline.Services.{Pipeline}

abbrev pub is_internal : Code → Bool
is_internal internal = true
is_internal _ = false

-- What `Resolve` of the intents gives, where `internal` stands for the read of a nil pointer.
unfoldable pub parsed_intent : Result Intent → Run (Step Intent)
unfolding panic
parsed_intent (err code) =
    if is_internal code then panic else return (blocked capability_not_offered)
parsed_intent (ok parsed) = return (passed parsed)

unfoldable pub identities_of : List Memory → List String
identities_of memories = map (λ m. m.identity_id) memories

abbrev pub is_always_ask : Behavior → Bool
is_always_ask always_ask = true
is_always_ask _ = false

-- What `resolve` asks the resolver of scopes; duration and limit are the defaults.
unfoldable pub scope_input : Inputs → Intent → MatchResult → ScopeInput
scope_input inputs parsed matched = record {
  intent = parsed;
  agent_id = inputs.request.agent_id;
  workspace_id = inputs.request.workspace_id;
  identity = matched.identity;
  duration = pos 0;
  request_limit = pos 0;
}

module _ (p : Pipeline) where
  abbrev pub read_clock : Run ℕ
  read_clock history =
      (clock_read (p.services.now history) ∷ history, done (p.services.now history))

  -- The loop of `toGrants`: a memory whose scope cannot be read is left out.
  unfoldable pub to_grants : List Memory → List Grant
  to_grants [] = []
  to_grants (m ∷ ms) =
      let rest = to_grants ms in
      elim (scope_of p.codec m) [
        | err code ↦ rest
        | ok learned ↦
            record { memory_id = m.id; scope = learned; always_ask = is_always_ask m.behavior }
            ∷ rest
      ]

  unfoldable pub is_beyond : List Memory → Scope → Bool
  is_beyond [] converged = true
  is_beyond (m ∷ ms) converged =
      let rest = is_beyond ms converged in
      elim (scope_of p.codec m) [
        | err code ↦ rest
        | ok learned ↦ if covers_ignoring_window learned converged then false else rest
      ]

  unfoldable pub beyond_history : List Memory → Scope → Bool
  unfolding is_beyond
  beyond_history memories converged =
      if is_nil memories then false else is_beyond memories converged

  unfoldable pub factors : Inputs → Intent → Scope → List Memory → Factors
  unfolding beyond_history same_environment
  factors inputs parsed converged grants = record {
    write = filled parsed.desired_change;
    production = same_environment converged.environment production;
    reversible = parsed.reversible;
    resource_count =
        if is_num 0 inputs.facts.resource_count && not parsed.resource_ambiguous
        then pos 1
        else inputs.facts.resource_count;
    destructive = inputs.facts.destructive;
    permission_change = inputs.facts.permission_change;
    secret_access = inputs.facts.secret_access || parsed.sensitive_data;
    billing = inputs.facts.billing;
    external_communication = inputs.facts.external_communication;
    first_seen = is_nil grants;
    beyond_history = beyond_history grants converged;
    agent_trust = inputs.agent_trust;
    device_trust = inputs.device_trust;
    declared_label = parsed.risk_label;
  }

  unfoldable pub learned : String → String → String → Run (Step (List Memory))
  learned agent_id workspace_id service = do
    found ←
        attempt
          (call (λ h. p.services.match_memories h agent_id workspace_id service) memories_read)
    return (or_blocked policy_engine_failure found)

  -- The loop of `standing`.
  unfoldable pub covering : String → String → ℕ → List Lease → List ActiveLease
  covering agent_id service now [] = []
  covering agent_id service now (l ∷ ls) =
      let rest = covering agent_id service now ls in
      if not (l.agent_id == agent_id) || not (l.service == service)
      then rest
      else if not (ltb now l.expires_at)
      then rest
      else elim (decode_grant p.codec l.resource_scope) [
        | err code ↦ rest
        | ok granted ↦ record { lease_id = l.id; scope = granted } ∷ rest
      ]

  unfoldable pub standing : String → String → Run (Step (List ActiveLease))
  standing agent_id service =
      (attempt (call p.services.active_leases leases_read) >>= λ found.
      return (or_blocked policy_engine_failure found))
      >>? λ active. read_clock >>= λ now. return (passed (covering agent_id service now active))

  unfoldable pub matched_identity : Inputs → Intent → List Memory → Step MatchResult
  matched_identity inputs parsed grants = or_blocked identity_ambiguity_unresolvable (
      match_identity
        (record {
          service = parsed.service;
          workspace_id = inputs.request.workspace_id;
          resource_key = parsed.resource_key;
        })
        (record {
          workspace_bindings = inputs.workspace_bindings;
          resource_bindings = inputs.resource_bindings;
          memory_identity_ids = identities_of grants;
          identities = inputs.identities;
          manual_selection = inputs.manual_selection;
        }))

  -- The resolver of scopes reads the clock after its checks; a time that is read and not used is
  -- of no account.
  unfoldable pub converged_scope : Inputs → Intent → MatchResult → Run (Step ScopeResult)
  unfolding scope_input
  converged_scope inputs parsed matched = do
    now ← read_clock
    return (
        or_blocked scope_undeterminable (resolve p.letters now (scope_input inputs parsed matched)))

  unfoldable pub input_of :
      Inputs
      → Intent
      → List Memory
      → MatchResult
      → ScopeResult
      → List ActiveLease
      → Assessment
      → Input
  input_of inputs parsed grants matched converged active assessment = record {
    mode = p.mode;
    agent_id = inputs.request.agent_id;
    agent_trust = inputs.agent_trust;
    write = filled parsed.desired_change;
    matched = matched;
    scope = converged;
    assessment = assessment;
    read_only_auto_allow = inputs.read_only_auto_allow;
    new_service = inputs.new_service;
    identity_changed = inputs.identity_changed;
    new_identity = inputs.new_identity;
    new_resource = inputs.new_resource;
    learned = to_grants grants;
    active = active;
    blockers = inputs.blockers;
  }

  -- `Pipeline.resolve`
  unfoldable pub resolve_request : Inputs → Run (Step Resolved)
  unfolding parsed_intent
  resolve_request inputs =
      parsed_intent (Intents.resolve p.catalog_codec p.patterns inputs.catalog inputs.call)
      >>? λ parsed.
          learned inputs.request.agent_id inputs.request.workspace_id parsed.service >>? λ grants.
          return (matched_identity inputs parsed grants) >>? λ matched.
          converged_scope inputs parsed matched >>? λ converged.
          standing inputs.request.agent_id parsed.service >>? λ active.
          return (or_blocked risk_unknown (evaluate (factors inputs parsed converged.scope grants)))
          >>? λ assessment. return (
              passed (record {
                matched = matched;
                scope = converged;
                risk = assessment;
                input = input_of inputs parsed grants matched converged active assessment;
                grants = grants;
              }))
