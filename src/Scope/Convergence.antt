-- ===== src/Scope/Convergence.antt =====
-- internal/core/scope/resolver.go: what a resolved scope holds, and what cannot influence it.
use open_delo.Prelude.{
  ℕ, ◌+◌, ◌<◌, String, ◌≡◌, ◌≢◌, refl, sym, subst, ◌↔◌, true, eq_iff, All, List, Memᴰ, arith,
  if◌then◌else◌, mem_of-keep, mem-keep,
}
use open_delo.Prelude.Int.{pos, pos_part, is_num}
use open_delo.Prelude.Text.{Letters}
use open_delo.Platform.AppError.{Result, ok, err, is_ok}
use open_delo.Scope.Dimensions.{Scope, is_valid, dimension_checks}
use open_delo.Scope.Covering.{is_valid-All}
use open_delo.Prelude.Sorting.{sort_strings, sort_strings_mem}
use open_delo.Scope.Resolver.{
  ScopeInput, ScopeResult, default_duration, check_input, is_injection, injection_fields, converge,
  resolve,
}

-- A result with only its scope kept.
abbrev pub scope_of : Result ScopeResult → Result Scope
scope_of (ok r) = ok r.scope
scope_of (err c) = err c

module _ (letters : Letters) (now : ℕ) (i : ScopeInput) where
  -- What the resolver promises of a scope.
  pub record IsNarrowest (s : Scope) : Type 0 where
    pub valid : is_valid s ≡ true
    pub agent_id : s.agent_id ≡ i.agent_id
    pub workspace_id : s.workspace_id ≡ i.workspace_id
    pub service : s.service ≡ i.intent.service
    pub identity_service : s.service ≡ i.identity.service
    pub identity_id : s.identity_id ≡ i.identity.id
    pub operation : s.operation ≡ i.intent.operation
    pub not_before : s.not_before ≡ now
    pub in_future : now < s.expires_at
    pub duration :
        s.expires_at ≡ now + (if is_num 0 i.duration then default_duration else pos_part i.duration)
    pub request_limit :
        s.request_limit ≡ (if is_num 0 i.request_limit then pos 1 else i.request_limit)

  resolve-ok :
      (r : ScopeResult)
      → resolve letters now i ≡ ok r
      → (is_ok (check_input i) ≡ true)
        × (is_valid (converge letters now i) ≡ true)
        × (r.scope ≡ converge letters now i)
        × (r.injection ≡ injection_fields letters (sort_strings i.intent.ignored_fields))
  unfolding resolve is_valid
  resolve-ok r h = ground arith

  identity_service :
      is_ok (check_input i) ≡ true
      → i.identity.id ≢ ""
      → i.intent.service ≢ ""
      → i.intent.service ≡ i.identity.service
  unfolding check_input
  identity_service h named served = ground (
    arith,
    eq_iff i.identity.id "",
    eq_iff i.intent.service "",
    eq_iff i.identity.service i.intent.service,
  )

  converge-IsNarrowest :
      is_ok (check_input i) ≡ true
      → is_valid (converge letters now i) ≡ true
      → All (λ c. c.1 ≡ true) (dimension_checks (converge letters now i))
      → IsNarrowest (converge letters now i)
  unfolding converge dimension_checks
  converge-IsNarrowest checked valid (a, (b, (service, (account, (e, (f, (time, rest))))))) =
      record {
        valid = valid;
        agent_id = refl;
        workspace_id = refl;
        service = refl;
        identity_service =
            identity_service checked (ground (arith, eq_iff i.identity.id ""))
              (ground (arith, eq_iff i.intent.service ""));
        identity_id = refl;
        operation = refl;
        not_before = refl;
        in_future = ground arith;
        duration = ground arith;
        request_limit = refl;
      }

-- A resolved scope is valid; its names come from the agent, the intent and the identity, whose
-- service is the intent's; its window opens now, closes later, and lasts the input's duration or,
-- for none, fifteen minutes; its request limit is the input's or, for none, one.
pub resolve-IsNarrowest :
    (letters : Letters) (now : ℕ) (i : ScopeInput) (r : ScopeResult)
    → resolve letters now i ≡ ok r
    → IsNarrowest letters now i r.scope
resolve-IsNarrowest letters now i r h =
    let (checked, valid, same, _) = resolve-ok letters now i r h in
    subst (IsNarrowest letters now i) (sym same) (
      converge-IsNarrowest letters now i checked valid
        (is_valid-All (converge letters now i) valid))

module _ (letters : Letters) (now : ℕ) (i : ScopeInput) (fields : List String) where
  -- The input with other ignored fields.
  abbrev pub with_fields : ScopeInput
  with_fields = record i { intent = record i.intent { ignored_fields = fields } }

  check_input-fields : check_input with_fields ≡ check_input i
  unfolding check_input
  check_input-fields = refl

  converge-fields : converge letters now with_fields ≡ converge letters now i
  unfolding converge
  converge-fields = refl

-- The ignored fields, among them all attempts to name a scope, have no influence on the scope that
-- is resolved, nor on whether one is.
pub resolve_ignores_fields :
    (letters : Letters) (now : ℕ) (i : ScopeInput) (fields : List String)
    → scope_of
        (resolve letters now (record i { intent = record i.intent { ignored_fields = fields } }))
      ≡ scope_of (resolve letters now i)
unfolding resolve
resolve_ignores_fields letters now i fields =
    ground (arith, check_input-fields letters now i fields, converge-fields letters now i fields)

injection_fields_mem :
    (letters : Letters) (field : String) (ss : List String)
    → Memᴰ field (injection_fields letters (sort_strings ss))
      ↔ (Memᴰ field ss × (is_injection letters field ≡ true))
unfolding injection_fields
injection_fields_mem letters field ss = (
  λ m.
      let (n, t) = mem_of-keep (is_injection letters) (sort_strings ss) field m in
      ((sort_strings_mem field ss).0 n, t),
  λ m.
      mem-keep (is_injection letters) (sort_strings ss) field ((sort_strings_mem field ss).1 m.0)
        m.1,
)

-- A field is reported as an injection exactly if the request carried it and its normalized name
-- contains one of the listed words.
pub resolve_injection :
    (letters : Letters) (now : ℕ) (i : ScopeInput) (r : ScopeResult) (field : String)
    → resolve letters now i ≡ ok r
    → Memᴰ field r.injection
      ↔ (Memᴰ field i.intent.ignored_fields × (is_injection letters field ≡ true))
resolve_injection letters now i r field h =
    let (_, _, _, listed) = resolve-ok letters now i r h in
    rw listed (injection_fields_mem letters field i.intent.ignored_fields)
