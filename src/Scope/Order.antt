-- ===== src/Scope/Order.antt =====
-- internal/core/scope/scope.go: `Covers` as a relation between scopes.
use open_delo.Prelude.{
  ℕ, String, ◌≡◌, ◌≢◌, refl, ◌∙◌, eq_iff, ◌==◌, inl, inr, Bool-cases, if◌then◌else◌, Bool, true,
  false, [], ◌∷◌, arith,
}
use open_delo.Scope.Dimensions.{
  Scope, is_valid, validate, dimension_checks, mentions_wild, has_wildcard, agrees_on, value_of,
  covers, covers_ignoring_window,
}
use open_delo.Scope.Resources.{IsMap, IsFilled, agrees_on_trans, agrees_on_refl}
use open_delo.Scope.Covering.{SameNames, covers-Covered, Covered-covers, is_valid-All, All-is_valid}

SameNames-trans : (a b c : Scope) → SameNames a b → SameNames b c → SameNames a c
SameNames-trans a b c p q = record {
  agent_id = p.agent_id ∙ q.agent_id;
  workspace_id = p.workspace_id ∙ q.workspace_id;
  service = p.service ∙ q.service;
  identity_id = p.identity_id ∙ q.identity_id;
  account = p.account ∙ q.account;
  operation = p.operation ∙ q.operation;
  environment = p.environment ∙ q.environment;
}

pub SameNames-refl : (a : Scope) → SameNames a a
SameNames-refl a = record {
  agent_id = refl;
  workspace_id = refl;
  service = refl;
  identity_id = refl;
  account = refl;
  operation = refl;
  environment = refl;
}

-- A valid scope whose resource is a map without wildcards covers itself.
pub covers_refl :
    (s : Scope)
    → is_valid s ≡ true
    → IsMap s.resource
    → has_wildcard s.resource ≡ false
    → covers s s ≡ true
covers_refl s v m w = Covered-covers s s (record {
  left_valid = v;
  right_valid = v;
  left_exact = w;
  right_exact = w;
  names = SameNames-refl s;
  size = refl;
  values = agrees_on_refl s.resource m;
  not_before = omega arith;
  expires_at = omega arith;
  request_limit = omega arith;
  risk_ceiling = omega arith;
})

-- Covering is transitive where the values of the widest scope's resource are not empty: what is
-- narrowed twice stays within the first scope.
pub covers_trans :
    (a b c : Scope)
    → IsFilled a.resource
    → covers a b ≡ true
    → covers b c ≡ true
    → covers a c ≡ true
covers_trans a b c f p q =
    let x = covers-Covered a b p in
    let y = covers-Covered b c q in
    Covered-covers a c (record {
      left_valid = x.left_valid;
      right_valid = y.right_valid;
      left_exact = x.left_exact;
      right_exact = y.right_exact;
      names = SameNames-trans a b c x.names y.names;
      size = x.size ∙ y.size;
      values = agrees_on_trans a.resource b.resource c.resource f x.values y.values;
      not_before = omega arith;
      expires_at = omega arith;
      request_limit = omega arith;
      risk_ceiling = omega arith;
    })

-- The window of the request plays no part in `CoversIgnoringWindow`.
pub covers_ignoring_window-window :
    (s o : Scope) (from to : ℕ)
    → covers_ignoring_window s (record o { not_before = from; expires_at = to })
      ≡ covers_ignoring_window s o
unfolding covers_ignoring_window
covers_ignoring_window-window s o from to = refl

is_valid-window :
    (s o : Scope)
    → is_valid s ≡ true
    → is_valid o ≡ true
    → is_valid (record o { not_before = s.not_before; expires_at = s.expires_at }) ≡ true
unfolding dimension_checks
is_valid-window s o p q =
    let (a, (b, (c, (d, (e, (f, (time, rest))))))) = is_valid-All o q in
    let (_, (_, (_, (_, (_, (_, (window, _))))))) = is_valid-All s p in
    All-is_valid (record o { not_before = s.not_before; expires_at = s.expires_at })
      (a, (b, (c, (d, (e, (f, (window, rest)))))))

-- What is covered with its window is covered without.
pub covers-covers_ignoring_window :
    (s o : Scope) → covers s o ≡ true → covers_ignoring_window s o ≡ true
unfolding covers_ignoring_window
covers-covers_ignoring_window s o h =
    let c = covers-Covered s o h in
    Covered-covers s (record o { not_before = s.not_before; expires_at = s.expires_at })
      (record {
        left_valid = c.left_valid;
        right_valid = is_valid-window s o c.left_valid c.right_valid;
        left_exact = c.left_exact;
        right_exact = c.right_exact;
        names = record {
          agent_id = c.names.agent_id;
          workspace_id = c.names.workspace_id;
          service = c.names.service;
          identity_id = c.names.identity_id;
          account = c.names.account;
          operation = c.names.operation;
          environment = c.names.environment;
        };
        size = c.size;
        values = c.values;
        not_before = omega arith;
        expires_at = omega arith;
        request_limit = c.request_limit;
        risk_ceiling = c.risk_ceiling;
      })

if_self : (b : Bool) (v : String) → (if b then v else v) ≡ v
if_self true v = refl
if_self false v = refl

other_key : (j k v : String) → j ≢ k → agrees_on ((k, "") ∷ []) ((j, v) ∷ []) ≡ true
unfolding agrees_on value_of
other_key j k v ne = elim (Bool-cases (j == k)) [
  | inl e ↦ absurd (ne ((eq_iff j k).0 e))
  | inr e ↦ rw (e, agrees_on, value_of) refl
]

-- A scope with one resource key.
abbrev pub only : Scope → String → String → Scope
only s k v = record s { resource = (k, v) ∷ [] }

-- A resource that says nothing of a key and one that gives it the empty value are not told apart:
-- a valid scope whose one resource key `k` has the empty value covers the same scope with any other
-- key `j` in place of `k`, whatever value without a wildcard that key has; and the first scope has no
-- value at `j`.
pub covers_other_key :
    (s : Scope) (k j v : String)
    → is_valid (only s k "") ≡ true
    → j ≢ k
    → mentions_wild v ≡ false
    → (covers (only s k "") (only s j v) ≡ true) × (value_of (only s k "").resource j ≡ "")
unfolding is_valid validate dimension_checks has_wildcard value_of agrees_on
covers_other_key s k j v valid ne w = (
  Covered-covers (only s k "") (only s j v) (record {
    left_valid = valid;
    right_valid = valid;
    left_exact = refl;
    right_exact = rw w;
    names = record {
      agent_id = refl;
      workspace_id = refl;
      service = refl;
      identity_id = refl;
      account = refl;
      operation = refl;
      environment = refl;
    };
    size = refl;
    values = other_key j k v ne;
    not_before = omega arith;
    expires_at = omega arith;
    request_limit = omega arith;
    risk_ceiling = omega arith;
  }),
  if_self (k == j) "",
)
