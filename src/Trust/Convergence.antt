-- ===== src/Trust/Convergence.antt =====
-- internal/core/trust/manager.go: a memory is never wider than the approval it comes from.
use open_delo.Prelude.{
  ℕ, ◌+◌, ◌≤◌, ◌<◌, String, ◌≡◌, refl, sym, subst, ◌≢◌, ◌⊎◌, inl, inr, true, false, some, arith,
  eq_iff, Bool-cases, contradiction,
}
use open_delo.Prelude.Int.{ℤ, pos, is_neg, leb_ℤ}
use open_delo.Platform.AppError.{Result, ok, Result-cases, is_ok}
use open_delo.Risk.Level.{Level, low, medium, rank, is_high, is_low, is_medium}
use open_delo.Scope.Dimensions.{
  Scope, is_valid, level_rank, valid_level, dimension_checks, covers_ignoring_window,
}
use open_delo.Scope.Covering.{is_valid-All, SameNames, covers-Covered}
use open_delo.Lease.Manager.{Codec, wrapped}
use open_delo.Trust.Memories.{active, Memory}
use open_delo.Trust.Manager.{
  max_ttl, GenerateRequest, check_generate, lower_of, lifetime, encode_learned, memory_of,
  generated,
}

-- A memory, made at the time `now`, within the approval of `q`.
pub record Converged (codec : Codec) (now : ℕ) (q : GenerateRequest) (m : Memory) : Type 0 where
  pub covered : covers_ignoring_window q.approved q.learned ≡ true
  pub agent_id : m.agent_id ≡ q.approved.agent_id
  pub workspace_id : m.workspace_id ≡ q.approved.workspace_id
  pub identity_id : m.identity_id ≡ q.approved.identity_id
  pub service : m.service ≡ q.approved.service
  pub environment : m.environment ≡ q.approved.environment
  pub scope_text : codec.marshal_scope q.learned ≡ some m.resource_scope
  pub low_or_medium : (m.risk_ceiling ≡ low) ⊎ (m.risk_ceiling ≡ medium)
  pub below_approved : rank m.risk_ceiling ≤ rank q.risk_level
  pub below_learned : rank m.risk_ceiling ≤ rank q.learned.risk_ceiling
  pub lasting : m.created_at < m.expires_at
  pub bounded : m.expires_at ≤ now + max_ttl
  pub from_approval : m.created_from ≢ ""
  pub in_use : m.status ≡ active

-- What passes `checkGenerate`.
check_generate-ok :
    (q : GenerateRequest)
    → is_ok (check_generate q) ≡ true
    → (is_valid q.learned ≡ true)
      × (covers_ignoring_window q.approved q.learned ≡ true)
      × ((q.risk_level ≡ low) ⊎ (q.risk_level ≡ medium))
      × (q.approval_id ≢ "")
      × (is_neg q.ttl ≡ false)
      × (leb_ℤ q.ttl (pos max_ttl) ≡ true)
unfolding check_generate is_high is_low is_medium is_valid
check_generate-ok q h = ground (arith, eq_iff q.approval_id "")

learned-names :
    (approved learned : Scope)
    → covers_ignoring_window approved learned ≡ true
    → SameNames approved learned
unfolding covers_ignoring_window
learned-names approved learned h =
    let c =
      covers-Covered approved
        (record learned { not_before = approved.not_before; expires_at = approved.expires_at }) h in
    record {
      agent_id = c.names.agent_id;
      workspace_id = c.names.workspace_id;
      service = c.names.service;
      identity_id = c.names.identity_id;
      account = c.names.account;
      operation = c.names.operation;
      environment = c.names.environment;
    }

valid_ceiling : (s : Scope) → is_valid s ≡ true → 1 ≤ rank s.risk_ceiling
unfolding rank level_rank valid_level dimension_checks
valid_ceiling s h =
    let (_, (_, (_, (_, (_, (_, (_, (_, (_, (level, _)))))))))) = is_valid-All s h in
    ground (arith, level)

lower_of-bounds : (a b : Level) → (rank (lower_of a b) ≤ rank a) × (rank (lower_of a b) ≤ rank b)
unfolding lower_of
lower_of-bounds a b = ground arith

lower_of-low_or_medium :
    (a b : Level)
    → (a ≡ low) ⊎ (a ≡ medium)
    → 1 ≤ rank b
    → (lower_of a b ≡ low) ⊎ (lower_of a b ≡ medium)
unfolding lower_of rank
lower_of-low_or_medium a b l h = ground arith

lifetime-bounds :
    (ttl : ℤ)
    → is_neg ttl ≡ false
    → leb_ℤ ttl (pos max_ttl) ≡ true
    → (0 < lifetime ttl) × (lifetime ttl ≤ max_ttl)
unfolding lifetime
lifetime-bounds ttl s t = ground arith

-- The texts are those of what is learned.
encode_learned-texts :
    (codec : Codec) (learned : Scope) (texts : String × String)
    → encode_learned codec learned ≡ ok texts
    → codec.marshal_scope learned ≡ some texts.0
unfolding encode_learned wrapped
encode_learned-texts codec learned texts h = ground (arith, h)

memory_of-Converged :
    (codec : Codec) (id : String) (texts : String × String) (now : ℕ) (q : GenerateRequest)
    → is_ok (check_generate q) ≡ true
    → encode_learned codec q.learned ≡ ok texts
    → Converged codec now q (memory_of id texts now q)
unfolding memory_of
memory_of-Converged codec id texts now q good e =
    let (valid, covered, level, approved_by, long, short) = check_generate-ok q good in
    let names = learned-names q.approved q.learned covered in
    let (below_risk, below_chosen) = lower_of-bounds q.risk_level q.learned.risk_ceiling in
    let (some_time, some_days) = lifetime-bounds q.ttl long short in
    record {
      covered = covered;
      agent_id = sym names.agent_id;
      workspace_id = sym names.workspace_id;
      identity_id = sym names.identity_id;
      service = sym names.service;
      environment = sym names.environment;
      scope_text = encode_learned-texts codec q.learned texts e;
      low_or_medium =
          lower_of-low_or_medium q.risk_level q.learned.risk_ceiling level
            (valid_ceiling q.learned valid);
      below_approved = below_risk;
      below_learned = below_chosen;
      lasting = ground (arith, some_time);
      bounded = ground (arith, some_days);
      from_approval = approved_by;
      in_use = refl;
    }

-- What `Generate` hands to the repository is within the approval: its scope is covered by the one
-- approved, for the same agent, project, identity, service and environment; its ceiling is low or
-- medium and above neither the risk of the approval nor what was chosen to be learned; it expires
-- later than it was made and within ninety days; and it names the approval.
pub generated-Converged :
    (codec : Codec) (new_id : Result String) (now : ℕ) (q : GenerateRequest) (m : Memory)
    → generated codec new_id now q ≡ ok m
    → Converged codec now q m
unfolding generated
generated-Converged codec new_id now q m h = elim (Bool-cases (is_ok (check_generate q))) [
  | inr bad ↦ contradiction (ground (arith, bad, h))
  | inl good ↦ elim (Result-cases new_id) [
    | inr (code, e) ↦ contradiction (ground (arith, good, e, h))
    | inl (id, e) ↦ elim (Result-cases (encode_learned codec q.learned)) [
      | inr (code, e') ↦ contradiction (ground (arith, good, e, e', h))
      | inl (texts, e') ↦
          subst (Converged codec now q) (ground (arith, good, e, e', h))
            (memory_of-Converged codec id texts now q good e')
    ]
  ]
]
