-- ===== src/Lease/Statements.antt =====
-- internal/store/queries/leases.sql: each statement on the table is one step, since SQLite runs
-- the statements of its one writer one after the other.
use open_delo.Prelude.{
  ℕ, ◌+◌, String, Bool, true, false, ◌&&◌, ◌||◌, not, Option, none, some, List, [], ◌∷◌, ◌++◌, any,
  find, ltb, leb, if◌then◌else◌, ◌==◌,
}
use open_delo.Platform.AppError.{Result, ok, ensure, ◌>>◌, invalid_request, conflict}
use open_delo.Lease.Rows.{Status, active, Row}

abbrev pub Table : Type 0
Table = List Row

unfoldable pub is_active : Status → Bool
is_active active = true
is_active _ = false

-- `status IN ('active', 'expired', 'exhausted', 'revoked')`
unfoldable pub known_status : Status → Bool
known_status (Status.other _) = false
known_status _ = true

-- `request_limit IS NULL OR used_requests < request_limit`
unfoldable pub below_limit : Row → Bool
below_limit r = elim r.request_limit [ none ↦ true | some n ↦ ltb r.used_requests n ]

-- The checks of the table. A row built by `to_row` meets the one on the flag; those of `json_valid` on
-- the scope and the capabilities are left out, as both texts are what `encoding/json` has printed.
unfoldable pub well_valued : Row → Bool
unfolding known_status
well_valued r =
    known_status r.status
    && (elim r.request_limit [ none ↦ true | some n ↦ ltb 0 n && leb r.used_requests n ])

-- The indexes: no key and no approval item twice.
unfoldable pub clashes : Row → Row → Bool
clashes r s = s.id == r.id || (elim r.approval_id [
  | none ↦ false
  | some a ↦ elim s.approval_id [ none ↦ false | some b ↦ b == a ]
])

unfoldable pub taken : Row → Table → Bool
taken r rows = any (clashes r) rows

-- `refers` tells whether the agent, the identity and, where named, the approval item and the memory
-- of a row are there: other tables hold them.
unfoldable pub create_lease : (Row → Bool) → Row → Table → Result Table
create_lease refers r rows = do
  ensure (well_valued r) invalid_request
  ensure (not (taken r rows)) conflict
  ensure (refers r) invalid_request
  ok (rows ++ r ∷ [])

-- `WHERE id = ?`
unfoldable pub lease_row : String → Table → Option Row
lease_row id rows = find (λ r. r.id == id) rows

-- `UPDATE … WHERE id = ? AND test RETURNING`: keys are unique, one row at most has the key.
unfoldable pub update_row : String → (Row → Bool) → (Row → Row) → Table → Table × Option Row
update_row id test change [] = ([], none)
update_row id test change (r ∷ rs) =
    let (rest, hit) = update_row id test change rs in
    if r.id == id
    then (if test r then (change r ∷ rs, some (change r)) else (r ∷ rs, none))
    else (r ∷ rest, hit)

unfoldable pub can_consume : ℕ → Row → Bool
unfolding is_active below_limit
can_consume now r = is_active r.status && ltb now r.expires_at && below_limit r

unfoldable pub counted : ℕ → Row → Row
counted now r = record r { used_requests = r.used_requests + 1; updated_at = now }

unfoldable pub consume_lease : String → ℕ → Table → Table × Option Row
consume_lease id now rows = update_row id (can_consume now) (counted now) rows

unfoldable pub can_close : Row → Bool
unfolding is_active
can_close r = is_active r.status

unfoldable pub closed : Status → ℕ → Row → Row
closed status at r = record r { status = status; updated_at = at }

unfoldable pub close_lease : String → Status → ℕ → Table → Table × Option Row
close_lease id status at rows = update_row id can_close (closed status at) rows

unfoldable pub can_shorten : ℕ → Row → Bool
unfolding is_active
can_shorten to r = is_active r.status && ltb to r.expires_at

unfoldable pub shortened : ℕ → ℕ → Row → Row
shortened to at r = record r { expires_at = to; updated_at = at }

unfoldable pub shorten_lease : String → ℕ → ℕ → Table → Table × Option Row
shorten_lease id to at rows = update_row id (can_shorten to) (shortened to at) rows
