-- ===== src/Lease/Changes.antt =====
-- internal/store/queries/leases.sql: what each update may make of a row.
use open_delo.Prelude.{
  ℕ, ◌≤◌, String, ◌≡◌, refl, ap, ◌∙◌, inl, inr, Bool, true, false, ◌&&◌, some, arith, ◌==◌,
  Bool-cases,
}
use open_delo.Lease.Rows.{Status, Row}
use open_delo.Lease.Statements.{
  is_active, below_limit, can_consume, counted, can_close, closed, can_shorten, shortened,
}
use open_delo.Lease.Updates.{updated}

-- What one row may become of another.
pub record Evolves (r s : Row) : Type 0 where
  pub agent_id : s.agent_id ≡ r.agent_id
  pub identity_id : s.identity_id ≡ r.identity_id
  pub service : s.service ≡ r.service
  pub resource_scope : s.resource_scope ≡ r.resource_scope
  pub capabilities : s.capabilities ≡ r.capabilities
  pub request_limit : s.request_limit ≡ r.request_limit
  pub approval_id : s.approval_id ≡ r.approval_id
  pub expiry : s.expires_at ≤ r.expires_at
  pub used : r.used_requests ≤ s.used_requests
  pub within : (n : ℕ) → r.request_limit ≡ some n → r.used_requests ≤ n → s.used_requests ≤ n
  pub frozen : is_active r.status ≡ false → s ≡ r

pub Evolves-refl : (r : Row) → Evolves r r
Evolves-refl r = record {
  agent_id = refl;
  identity_id = refl;
  service = refl;
  resource_scope = refl;
  capabilities = refl;
  request_limit = refl;
  approval_id = refl;
  expiry = omega arith;
  used = omega arith;
  within = λ n h u. u;
  frozen = λ h. refl;
}

pub Evolves-trans : (r s t : Row) → Evolves r s → Evolves s t → Evolves r t
Evolves-trans r s t e f = record {
  agent_id = f.agent_id ∙ e.agent_id;
  identity_id = f.identity_id ∙ e.identity_id;
  service = f.service ∙ e.service;
  resource_scope = f.resource_scope ∙ e.resource_scope;
  capabilities = f.capabilities ∙ e.capabilities;
  request_limit = f.request_limit ∙ e.request_limit;
  approval_id = f.approval_id ∙ e.approval_id;
  expiry = omega (arith, e.expiry, f.expiry);
  used = omega (arith, e.used, f.used);
  within = λ n h u. f.within n (e.request_limit ∙ h) (e.within n h u);
  frozen = λ h. let same = e.frozen h in f.frozen (ap (λ x. is_active x.status) same ∙ h) ∙ same;
}

pub counted-Evolves : (now : ℕ) (r : Row) → can_consume now r ≡ true → Evolves r (counted now r)
unfolding can_consume counted below_limit
counted-Evolves now r h = record {
  agent_id = refl;
  identity_id = refl;
  service = refl;
  resource_scope = refl;
  capabilities = refl;
  request_limit = refl;
  approval_id = refl;
  expiry = omega arith;
  used = omega arith;
  within = λ n limited u. ground (arith, h, limited);
  frozen = λ closed. ground (arith, h, closed);
}

pub closed-Evolves :
    (status : Status) (at : ℕ) (r : Row) → can_close r ≡ true → Evolves r (closed status at r)
unfolding can_close closed
closed-Evolves status at r h = record {
  agent_id = refl;
  identity_id = refl;
  service = refl;
  resource_scope = refl;
  capabilities = refl;
  request_limit = refl;
  approval_id = refl;
  expiry = omega arith;
  used = omega arith;
  within = λ n limited u. u;
  frozen = λ closed. ground (arith, h, closed);
}

pub shortened-Evolves :
    (to at : ℕ) (r : Row) → can_shorten to r ≡ true → Evolves r (shortened to at r)
unfolding can_shorten shortened
shortened-Evolves to at r h = record {
  agent_id = refl;
  identity_id = refl;
  service = refl;
  resource_scope = refl;
  capabilities = refl;
  request_limit = refl;
  approval_id = refl;
  expiry = ground (arith, h);
  used = omega arith;
  within = λ n limited u. u;
  frozen = λ closed. ground (arith, h, closed);
}

pub updated-Evolves :
    (id : String) (test : Row → Bool) (change : Row → Row) (r : Row)
    → ((s : Row) → test s ≡ true → Evolves s (change s))
    → Evolves r (updated id test change r)
updated-Evolves id test change r moves = elim (Bool-cases ((r.id == id) && test r)) [
  | inl e ↦ rw e (moves r (ground (arith, e)))
  | inr e ↦ rw e (Evolves-refl r)
]
