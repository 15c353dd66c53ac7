-- ===== src/Trust/Manager.antt =====
-- internal/core/trust/manager.go: what is learned, what of it is used, and what lapses.
use open_delo.Prelude.{
  keep, ℕ, ◌+◌, String, Bool, true, false, ◌||◌, not, List, [], ◌∷◌, ltb, leb, if◌then◌else◌,
}
use open_delo.Prelude.Int.{ℤ, pos, pos_part, is_neg, is_num, leb_ℤ}
use open_delo.Prelude.Text.{same_number}
use open_delo.Platform.AppError.{invalid_request, Result, ok, ensure, ◌>>=◌, ◌>>◌}
use open_delo.Risk.Level.{Level, rank, is_high, is_low, is_medium}
use open_delo.Scope.Dimensions.{Scope, validate, covers_ignoring_window, filled}
use open_delo.Approval.Items.{Behavior}
use open_delo.Lease.Manager.{Codec, wrapped}
use open_delo.Trust.Memories.{Status, active, InvalidationReason, Memory}

-- Thirty and ninety days.
abbrev pub default_ttl : ℕ
default_ttl = 2_592_000_000_000_000

abbrev pub max_ttl : ℕ
max_ttl = 7_776_000_000_000_000

abbrev pub unused_ttl : ℕ
unused_ttl = 2_592_000_000_000_000

pub record GenerateRequest : Type 0 where
  pub approved : Scope
  pub learned : Scope
  pub approval_id : String
  pub risk_level : Level
  pub behavior : Behavior
  pub ttl : ℤ

unfoldable pub known_behavior : Behavior → Bool
known_behavior (Behavior.other _) = false
known_behavior _ = true

-- The checks in the order of the code; all but those of the scopes give `invalid_request`.
unfoldable pub check_generate : GenerateRequest → Result (Unit {0})
unfolding is_high is_low is_medium known_behavior
check_generate q = do
  validate q.approved
  validate q.learned
  ensure (covers_ignoring_window q.approved q.learned) invalid_request
  ensure (not (is_high q.risk_level)) invalid_request
  ensure (is_low q.risk_level || is_medium q.risk_level) invalid_request
  ensure (filled q.approval_id) invalid_request
  ensure (known_behavior q.behavior) invalid_request
  ensure (not (is_neg q.ttl)) invalid_request
  ensure (leb_ℤ q.ttl (pos max_ttl)) invalid_request

unfoldable pub lower_of : Level → Level → Level
unfolding rank
lower_of left right = if leb (rank left) (rank right) then left else right

-- The lifetime of a memory.
unfoldable pub lifetime : ℤ → ℕ
lifetime ttl = if is_num 0 ttl then default_ttl else pos_part ttl

-- The record that `Generate` fills in.
unfoldable pub memory_of : String → String × String → ℕ → GenerateRequest → Memory
unfolding lower_of lifetime
memory_of id texts now q = record {
  id = id;
  agent_id = q.learned.agent_id;
  workspace_id = q.learned.workspace_id;
  identity_id = q.learned.identity_id;
  service = q.learned.service;
  resource_scope = texts.0;
  capability_scope = texts.1;
  environment = q.learned.environment;
  risk_ceiling = lower_of q.risk_level q.learned.risk_ceiling;
  behavior = q.behavior;
  created_from = q.approval_id;
  status = active;
  invalidation_reason = InvalidationReason.other "";
  last_used_at = 0;
  expires_at = now + lifetime q.ttl;
  created_at = now;
  updated_at = now;
}

module _ (codec : Codec) where
  unfoldable pub encode_learned : Scope → Result (String × String)
  unfolding wrapped
  encode_learned learned = do
    scope ← wrapped (codec.marshal_scope learned)
    names ← wrapped (codec.marshal_names (learned.operation ∷ []))
    ok (scope, names)

  -- `ScopeOf`
  unfoldable pub scope_of : Memory → Result Scope
  unfolding wrapped
  scope_of m = do
    learned ← wrapped (codec.unmarshal_scope m.resource_scope)
    validate learned
    ok learned

  -- The memory that `Generate` hands to the repository; `new_id` is what the generator of keys
  -- returns.
  unfoldable pub generated : Result String → ℕ → GenerateRequest → Result Memory
  unfolding memory_of
  generated new_id now q = do
    check_generate q
    id ← new_id
    texts ← encode_learned q.learned
    ok (memory_of id texts now q)

-- The loop of `Match` over what the repository found.
unfoldable pub usable : ℕ → List Memory → List Memory
usable now candidates = keep (λ m. ltb now m.expires_at) candidates

-- `Match`; `found` is what the repository returns.
unfoldable pub match_memories : ℕ → Result (List Memory) → Result (List Memory)
unfolding usable
match_memories now found = do candidates ← found; ok (usable now candidates)

unfoldable pub last_touched : Memory → ℕ
last_touched m = if same_number m.last_used_at 0 then m.created_at else m.last_used_at

-- The loop of `InvalidateUnused`, `now - UnusedTTL` moved to the other side.
unfoldable pub stale : ℕ → List Memory → List Memory
unfolding last_touched
stale now active_ones = keep (λ m. leb (last_touched m + unused_ttl) now) active_ones

unfoldable pub valid_status : Status → Bool
valid_status (Status.other _) = false
valid_status _ = true

unfoldable pub valid_reason : InvalidationReason → Bool
valid_reason (InvalidationReason.other _) = false
valid_reason _ = true
