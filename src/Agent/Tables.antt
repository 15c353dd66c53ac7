-- ===== src/Agent/Tables.antt =====
-- The statements of internal/store/queries on a table whose rows have a key: what SQLite does to
-- insert a row, or to change the one of a key and return it, under the table's checks and unique
-- indexes, and the errors that internal/store/repo/repo.go makes of what it refuses.
use open_delo.Prelude.{
  String, Bool, true, ◌&&◌, not, Option, none, some, List, [], ◌∷◌, ◌++◌, any, keep, find,
  if◌then◌else◌, ◌==◌,
}
use open_delo.Platform.AppError.{
  Result, ok, err, ensure, ◌>>◌, invalid_request, conflict, not_found,
}

-- `valued` holds the checks of one row, `clashes` the primary key and the unique indexes.
pub record Schema {ℓ} (Row : Type ℓ) : Type ℓ where
  pub key : Row → String
  pub valued : Row → Bool
  pub clashes : Row → Row → Bool

module _ {ℓ} {Row : Type ℓ} (schema : Schema Row) where
  unfoldable pub taken : Row → List Row → Bool
  taken r rows = any (schema.clashes r) rows

  -- `WHERE id = ?`
  unfoldable pub row_of : String → List Row → Option Row
  row_of id rows = find (λ r. schema.key r == id) rows

  unfoldable pub others : String → List Row → List Row
  others id rows = keep (λ r. not (schema.key r == id)) rows

  -- The row of the key in its place.
  unfoldable pub replace : String → Row → List Row → List Row
  replace id row [] = []
  replace id row (r ∷ rs) =
      let rest = replace id row rs in if schema.key r == id then row ∷ rs else r ∷ rest

  -- `INSERT … RETURNING`; `refers` tells whether the rows that it names are there.
  unfoldable pub insert_row : Bool → Row → List Row → Result (List Row)
  insert_row refers row rows = do
    ensure (schema.valued row) invalid_request
    ensure (not (taken row rows)) conflict
    ensure refers invalid_request
    ok (rows ++ row ∷ [])

  unfoldable pub put_row : String → Row → List Row → Result (List Row × Row)
  put_row id row rows = do
    ensure (schema.valued row) invalid_request
    ensure (not (taken row (others id rows))) conflict
    ok (replace id row rows, row)

  -- `UPDATE … WHERE id = ? RETURNING`
  unfoldable pub update_row : String → (Row → Row) → List Row → Result (List Row × Row)
  update_row id change rows = elim (row_of id rows) [
    | none ↦ err not_found
    | some r ↦ put_row id (change r) rows
  ]

  -- What the checks and indexes keep up.
  unfoldable pub sound : List Row → Bool
  sound [] = true
  sound (r ∷ rs) = schema.valued r && not (taken r rs) && sound rs
