-- ===== src/Lease/Manager.antt =====
-- internal/core/lease/manager.go: issue, use, revoke, shorten and sweep, on the table that the
-- repository reads and writes.
use open_delo.Prelude.{
  ℕ, String, Bool, ◌&&◌, not, Option, none, some, List, [], ◌∷◌, ltb, if◌then◌else◌,
}
use open_delo.Prelude.Int.{ℤ, pos, is_num, leb_ℤ}
use open_delo.Prelude.Text.{same_number}
use open_delo.Platform.AppError.{
  invalid_request, internal, credential_not_authorized, Result, err, ok, ensure, ◌>>=◌, ◌>>◌,
}
use open_delo.Scope.Dimensions.{Scope, validate, covers_ignoring_window}
use open_delo.Lease.Rows.{active, expired, exhausted, revoked, Lease, Row}
use open_delo.Lease.Statements.{Table}
use open_delo.Lease.Repository.{
  issue_lease, lease_by_id, consume, close, shorten, active_leases_due_before,
}
use open_delo.Lease.Evolution.{Call, run_all}

-- `encoding/json`: the text of a scope and of a list of names, and the scope of a text.
pub record Codec : Type 0 where
  pub marshal_scope : Scope → Option String
  pub marshal_names : List String → Option String
  pub unmarshal_scope : String → Option Scope

pub record IssueRequest : Type 0 where
  pub granted : Scope
  pub approval_id : String
  pub source_memory_id : String
  pub is_session_bound : Bool

-- `err` of a call of the library is an internal error.
unfoldable pub wrapped {ℓ} : {A : Type ℓ} → Option A → Result A
wrapped none = err internal
wrapped (some a) = ok a

module _ (codec : Codec) where
  unfoldable pub encode_grant : Scope → Result (String × String)
  unfolding wrapped
  encode_grant granted = do
    scope ← wrapped (codec.marshal_scope granted)
    names ← wrapped (codec.marshal_names (granted.operation ∷ []))
    ok (scope, names)

  unfoldable pub decode_grant : String → Result Scope
  unfolding wrapped
  decode_grant text = do
    granted ← wrapped (codec.unmarshal_scope text)
    validate granted
    ok granted

  -- The lease that `Issue` hands to the repository; `new_id` is what the generator of keys returns.
  unfoldable pub drafted : Result String → ℕ → IssueRequest → Result Lease
  unfolding encode_grant
  drafted new_id now q = do
    validate q.granted
    ensure (ltb now q.granted.expires_at) invalid_request
    id ← new_id
    texts ← encode_grant q.granted
    ok (record {
      id = id;
      agent_id = q.granted.agent_id;
      identity_id = q.granted.identity_id;
      service = q.granted.service;
      resource_scope = texts.0;
      capabilities = texts.1;
      expires_at = q.granted.expires_at;
      request_limit = q.granted.request_limit;
      used_requests = 0;
      status = active;
      approval_id = q.approval_id;
      is_session_bound = q.is_session_bound;
      source_memory_id = q.source_memory_id;
      created_at = now;
      updated_at = now;
    })

  unfoldable pub issue :
      (Row → Bool) → Result String → ℕ → IssueRequest → Table → Table × Result Lease
  unfolding drafted
  issue refers new_id now q rows = elim (drafted new_id now q) [
    | err code ↦ (rows, err code)
    | ok l ↦ issue_lease refers l rows
  ]

  -- What `Use` checks before it counts.
  unfoldable pub checked : String → Scope → Table → Result (Unit {0})
  unfolding decode_grant
  checked id requested rows = do
    validate requested
    current ← lease_by_id id rows
    granted ← decode_grant current.resource_scope
    ensure (covers_ignoring_window granted requested) credential_not_authorized

  unfoldable pub used_up : Lease → Bool
  used_up l = not (is_num 0 l.request_limit) && leb_ℤ l.request_limit (pos l.used_requests)

  -- `Use` is a read, a statement that counts and, on the last use, one that closes. The calls
  -- `before` and `after` of other callers run between them; the clock is read at `now` and `later`.
  unfoldable pub use_lease :
      (Row → Bool) → List Call → List Call → String → Scope → ℕ → ℕ → Table → Table × Result Lease
  unfolding used_up
  use_lease refers before after id requested now later rows = elim (checked id requested rows) [
    | err code ↦ (rows, err code)
    | ok _ ↦
        let (counted_rows, counted_lease) = consume id now (run_all refers before rows) in
        elim counted_lease [
          | err code ↦ (counted_rows, err code)
          | ok l ↦
              if used_up l
              then close id exhausted later (run_all refers after counted_rows)
              else (counted_rows, ok l)
        ]
  ]

unfoldable pub revoke : String → ℕ → Table → Table × Result Lease
revoke id now rows = close id revoked now rows

-- The zero time is no time.
unfoldable pub shorten_to : String → ℕ → ℕ → Table → Table × Result Lease
shorten_to id expires_at now rows =
    if same_number expires_at 0 then (rows, err invalid_request) else shorten id expires_at now rows

-- The leases closed so far, and the error that ended the loop early.
unfoldable pub close_each : ℕ → List Lease → Table → Table × List Lease × Result (Unit {0})
close_each now [] rows = (rows, [], ok tt)
close_each now (l ∷ ls) rows =
    let (rows', result) = close l.id expired now rows in
    let (rows'', rest, end) = close_each now ls rows' in
    elim result [ err code ↦ (rows', [], err code) | ok done ↦ (rows'', done ∷ rest, end) ]

unfoldable pub sweep : ℕ → ℤ → Table → Table × List Lease × Result (Unit {0})
unfolding close_each
sweep now limit rows = elim (active_leases_due_before now limit rows) [
  | err code ↦ (rows, [], err code)
  | ok due ↦ close_each now due rows
]
