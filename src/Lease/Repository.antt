-- ===== src/Lease/Repository.antt =====
-- internal/store/repo/lease.go: the repository on the table. A call returns the table after it.
use open_delo.Prelude.{
  ℕ, String, Bool, false, ◌&&◌, Option, none, some, List, [], ◌∷◌, take, keep, leb, find,
  if◌then◌else◌, ◌==◌,
}
use open_delo.Prelude.Int.{ℤ, is_pos, pos_part}
use open_delo.Platform.AppError.{
  Code, Result, ok, err, ensure, ◌>>=◌, ◌>>◌, invalid_request, conflict, not_found,
}
use open_delo.Lease.Rows.{Status, Lease, Row, encode_time, to_row, to_lease}
use open_delo.Lease.Statements.{
  Table, is_active, known_status, create_lease, lease_row, consume_lease, close_lease,
  shorten_lease,
}

-- The row of a statement that found one, and the error where it found none.
unfoldable pub returned : Code → Option Row → Result Lease
returned missing none = err missing
returned missing (some r) = to_lease r

unfoldable pub issue_lease : (Row → Bool) → Lease → Table → Table × Result Lease
issue_lease refers l rows = elim (create_lease refers (to_row l) rows) [
  | err code ↦ (rows, err code)
  | ok rows' ↦ (rows', to_lease (to_row l))
]

unfoldable pub lease_by_id : String → Table → Result Lease
unfolding returned
lease_by_id id rows = returned not_found (lease_row id rows)

-- The empty text is no approval item: many rows have none.
unfoldable pub lease_by_approval_id : String → Table → Result Lease
unfolding returned
lease_by_approval_id approval rows =
    if approval == ""
    then err not_found
    else returned not_found
        (find (λ r. elim r.approval_id [ none ↦ false | some a ↦ a == approval ]) rows)

unfoldable pub consume : String → ℕ → Table → Table × Result Lease
unfolding returned encode_time
consume id now rows =
    let (rows', hit) = consume_lease id (encode_time now) rows in (rows', returned conflict hit)

-- A status outside the table's list violates its check where a row is found.
unfoldable pub close : String → Status → ℕ → Table → Table × Result Lease
unfolding returned encode_time is_active known_status
close id status at rows =
    let (rows', hit) = close_lease id status (encode_time at) rows in
    if is_active status
    then (rows, err invalid_request)
    else if known_status status
    then (rows', returned conflict hit)
    else (rows, (elim hit [ none ↦ err conflict | some r ↦ err invalid_request ]))

unfoldable pub shorten : String → ℕ → ℕ → Table → Table × Result Lease
unfolding returned encode_time
shorten id to at rows =
    let (rows', hit) = shorten_lease id (encode_time to) (encode_time at) rows in
    (rows', returned invalid_request hit)

-- `toLeases`
unfoldable pub to_leases : List Row → Result (List Lease)
to_leases [] = ok []
to_leases (r ∷ rs) = do l ← to_lease r; ls ← to_leases rs; ok (l ∷ ls)

-- `ORDER BY expires_at`
unfoldable pub insert_by_expiry : Row → List Row → List Row
insert_by_expiry r [] = r ∷ []
insert_by_expiry r (s ∷ ss) =
    let rest = insert_by_expiry r ss in
    if leb r.expires_at s.expires_at then r ∷ s ∷ ss else s ∷ rest

unfoldable pub by_expiry : List Row → List Row
unfolding insert_by_expiry
by_expiry [] = []
by_expiry (r ∷ rs) = insert_by_expiry r (by_expiry rs)

-- `LIMIT ?`, which the callers refuse below one.
unfoldable pub listed : (Row → Bool) → ℤ → Table → Result (List Lease)
unfolding to_leases by_expiry
listed test limit rows = do
  ensure (is_pos limit) invalid_request
  to_leases (take (pos_part limit) (by_expiry (keep test rows)))

unfoldable pub active_leases_due_before : ℕ → ℤ → Table → Result (List Lease)
unfolding listed
active_leases_due_before deadline limit rows =
    listed (λ r. is_active r.status && leb r.expires_at (encode_time deadline)) limit rows

unfoldable pub active_leases_by_identity : String → ℤ → Table → Result (List Lease)
unfolding listed
active_leases_by_identity identity limit rows =
    listed (λ r. (r.identity_id == identity) && is_active r.status) limit rows

unfoldable pub active_session_bound_leases_by_agent : String → ℤ → Table → Result (List Lease)
unfolding listed
active_session_bound_leases_by_agent agent limit rows =
    listed (λ r. (r.agent_id == agent) && is_active r.status && r.is_session_bound) limit rows
