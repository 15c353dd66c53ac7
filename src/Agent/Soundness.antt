-- ===== src/Agent/Soundness.antt =====
-- The statements on a table: the checks and indexes hold after each, and what a lookup finds then.
use open_delo.Prelude.{
  String, ◌≡◌, refl, inl, inr, Bool, true, false, none, some, List, [], ◌∷◌, ◌++◌, any, find, arith,
  eq_iff, Bool-cases, Option-cases, contradiction, ◌==◌,
}
use open_delo.Platform.AppError.{ok}
use open_delo.Agent.Tables.{
  Schema, taken, row_of, others, replace, insert_row, put_row, update_row, sound,
}

module _ {ℓ} {Row : Type ℓ} (schema : Schema Row) where
  -- What a change of a row did.
  pub record Changed (id : String) (change : Row → Row) (rows rows' : List Row) (r' : Row)
      : Type ℓ where
    pub before : Row
    pub there : row_of schema id rows ≡ some before
    pub row : r' ≡ change before
    pub valued : schema.valued r' ≡ true
    pub free : taken schema r' (others schema id rows) ≡ false
    pub placed : rows' ≡ replace schema id r' rows

  pub update_row-Changed :
      (id : String) (change : Row → Row) (rows rows' : List Row) (r' : Row)
      → update_row schema id change rows ≡ ok (rows', r')
      → Changed id change rows rows' r'
  unfolding update_row put_row
  update_row-Changed id change rows rows' r' h = elim (Option-cases (row_of schema id rows)) [
    | inl e ↦ contradiction (ground (arith, h, e))
    | inr (r, e) ↦
        let same : r' ≡ change r = ground (arith, h, e) in
        record {
          before = r;
          there = e;
          row = same;
          valued = rw same (ground (arith, h, e));
          free = rw same (ground (arith, h, e));
          placed = rw same (ground (arith, h, e));
        }
  ]

  pub insert_row-ok :
      (refers : Bool) (row : Row) (rows rows' : List Row)
      → insert_row schema refers row rows ≡ ok rows'
      → (rows' ≡ rows ++ row ∷ [])
        × (schema.valued row ≡ true)
        × (taken schema row rows ≡ false)
        × (refers ≡ true)
  unfolding insert_row
  insert_row-ok refers row rows rows' h = ground arith

  find-append :
      (q : Row → Bool) (rows : List Row) (row : Row)
      → find q rows ≡ none
      → q row ≡ true
      → find q (rows ++ row ∷ []) ≡ some row
  find-append q [] row h e = ground arith
  find-append q (r ∷ rs) row h e = ground (arith, find-append q rs row)

  -- A test that finds only what clashes with a row finds nothing where that row is not taken.
  pub find-untaken :
      (q : Row → Bool) (row : Row) (rows : List Row)
      → ((s : Row) → q s ≡ true → schema.clashes row s ≡ true)
      → taken schema row rows ≡ false
      → find q rows ≡ none
  unfolding taken
  find-untaken q row [] only h = refl
  find-untaken q row (s ∷ rs) only h = ground (arith, find-untaken q row rs only, only s)

  pub find-inserted :
      (q : Row → Bool) (row : Row) (rows : List Row)
      → ((s : Row) → q s ≡ true → schema.clashes row s ≡ true)
      → taken schema row rows ≡ false
      → q row ≡ true
      → find q (rows ++ row ∷ []) ≡ some row
  find-inserted q row rows only h e = find-append q rows row (find-untaken q row rows only h) e

  -- What a test finds in a table where it finds nothing but, perhaps, the row of the key.
  pub find-replace :
      (id : String) (q : Row → Bool) (row r : Row) (rows : List Row)
      → row_of schema id rows ≡ some r
      → find q (others schema id rows) ≡ none
      → q row ≡ true
      → find q (replace schema id row rows) ≡ some row
  unfolding row_of others replace
  find-replace id q row r [] h none_else e = ground arith
  find-replace id q row r (s ∷ rs) h none_else e = ground (arith, find-replace id q row r rs)

  pub row_of-id :
      (id : String) (rows : List Row) (r : Row) → row_of schema id rows ≡ some r → schema.key r ≡ id
  unfolding row_of
  row_of-id id [] r h = ground arith
  row_of-id id (s ∷ rows) r h = ground (arith, row_of-id id rows r, eq_iff (schema.key s) id)

  -- The row of another key.
  pub row_of-other :
      (id j : String) (row : Row) (rows : List Row)
      → (id == j) ≡ false
      → schema.key row ≡ id
      → row_of schema j (replace schema id row rows) ≡ row_of schema j rows
  unfolding row_of replace
  row_of-other id j row [] h e = refl
  row_of-other id j row (s ∷ rs) h e =
      ground (arith, row_of-other id j row rs, eq_iff (schema.key s) id, eq_iff (schema.key row) id)

  pub row_of-same :
      (id : String) (row r : Row) (rows : List Row)
      → row_of schema id rows ≡ some r
      → schema.key row ≡ id
      → row_of schema id (replace schema id row rows) ≡ some row
  unfolding row_of replace
  row_of-same id row r [] h e = ground arith
  row_of-same id row r (s ∷ rs) h e =
      ground (arith, row_of-same id row r rs, eq_iff (schema.key row) id)

  pub row_of-append :
      (j : String) (rows more : List Row) (r : Row)
      → row_of schema j rows ≡ some r
      → row_of schema j (rows ++ more) ≡ some r
  unfolding row_of
  row_of-append j [] more r h = ground arith
  row_of-append j (s ∷ rows) more r h = ground (arith, row_of-append j rows more r)

  pub any-replace :
      (p : Row → Bool) (id : String) (row : Row) (rows : List Row)
      → any p rows ≡ false
      → p row ≡ false
      → any p (replace schema id row rows) ≡ false
  unfolding replace
  any-replace p id row [] h e = refl
  any-replace p id row (s ∷ rs) h e = ground (arith, any-replace p id row rs)

  pub any-append :
      (p : Row → Bool) (row : Row) (rows : List Row)
      → any p rows ≡ false
      → p row ≡ false
      → any p (rows ++ row ∷ []) ≡ false
  any-append p row [] h e = ground arith
  any-append p row (s ∷ rs) h e = ground (arith, any-append p row rs)

  pub any-row_of :
      (p : Row → Bool) (id : String) (r : Row) (rows : List Row)
      → any p rows ≡ false
      → row_of schema id rows ≡ some r
      → p r ≡ false
  unfolding row_of
  any-row_of p id r [] h e = ground arith
  any-row_of p id r (s ∷ rs) h e = ground (arith, any-row_of p id r rs)

  -- The order of two rows is all the same, and a key is unique.
  pub record Lawful : Type ℓ where
    pub either : (r s : Row) → schema.clashes r s ≡ schema.clashes s r
    pub by_key : (r s : Row) → (schema.key s == schema.key r) ≡ true → schema.clashes r s ≡ true

  module _ (lawful : Lawful) where
    pub sound-append :
        (row : Row) (rows : List Row)
        → sound schema rows ≡ true
        → schema.valued row ≡ true
        → taken schema row rows ≡ false
        → sound schema (rows ++ row ∷ []) ≡ true
    unfolding sound taken
    sound-append row [] h v free = ground arith
    sound-append row (r ∷ rs) h v free =
        ground
          (arith, sound-append row rs, any-append (schema.clashes r) row rs, lawful.either row r)

    others-absent :
        (id : String) (r : Row) (rows : List Row)
        → (schema.key r == id) ≡ true
        → taken schema r rows ≡ false
        → others schema id rows ≡ rows
    unfolding others taken
    others-absent id r [] e h = refl
    others-absent id r (s ∷ rs) e h =
        let rest : others schema id rs ≡ rs = others-absent id r rs e (ground arith) in
        let apart : (schema.key s == id) ≡ false = ground (
          arith,
          lawful.by_key r s,
          eq_iff (schema.key r) id,
          eq_iff (schema.key s) id,
          eq_iff (schema.key s) (schema.key r),
        ) in
        rw (apart, rest) refl

    pub sound-replace :
        (id : String) (row : Row) (rows : List Row)
        → sound schema rows ≡ true
        → schema.valued row ≡ true
        → taken schema row (others schema id rows) ≡ false
        → sound schema (replace schema id row rows) ≡ true
    unfolding sound replace others taken
    sound-replace id row [] h v free = refl
    sound-replace id row (r ∷ rs) h v free = elim (Bool-cases (schema.key r == id)) [
      | inl e ↦
          let same : others schema id rs ≡ rs = others-absent id r rs e (ground arith) in
          ground (arith, same, e)
      | inr e ↦ ground (
        arith,
        sound-replace id row rs,
        any-replace (schema.clashes r) id row rs,
        lawful.either row r,
        e,
      )
    ]

    -- Nothing but the row of the key clashes with it.
    pub untaken-others :
        (id : String) (r : Row) (rows : List Row)
        → sound schema rows ≡ true
        → row_of schema id rows ≡ some r
        → taken schema r (others schema id rows) ≡ false
    unfolding sound others row_of taken
    untaken-others id r [] h e = ground arith
    untaken-others id r (s ∷ rs) h e = elim (Bool-cases (schema.key s == id)) [
      | inl here ↦
          let same : s ≡ r = ground (arith, here, e) in
          let rest : others schema id rs ≡ rs = others-absent id s rs here (ground (arith, h)) in
          rw (here, rest, ← same) (ground (arith, h))
      | inr away ↦
          let there : row_of schema id rs ≡ some r = ground (arith, away, e) in
          let apart = any-row_of (schema.clashes s) id r rs (ground (arith, h)) there in
          ground (arith, away, untaken-others id r rs, there, h, apart, lawful.either r s)
    ]

    pub any-replaced :
        (p : Row → Bool) (id : String) (row : Row) (rows : List Row)
        → sound schema rows ≡ true
        → any p (others schema id rows) ≡ false
        → p row ≡ false
        → any p (replace schema id row rows) ≡ false
    unfolding sound others replace
    any-replaced p id row [] h none_else e = refl
    any-replaced p id row (s ∷ rs) h none_else e = elim (Bool-cases (schema.key s == id)) [
      | inl here ↦
          let rest : others schema id rs ≡ rs = others-absent id s rs here (ground (arith, h)) in
          ground (arith, here, rest, none_else)
      | inr away ↦ ground (arith, away, any-replaced p id row rs)
    ]

    pub sound-update_row :
        (id : String) (change : Row → Row) (rows rows' : List Row) (r' : Row)
        → sound schema rows ≡ true
        → update_row schema id change rows ≡ ok (rows', r')
        → sound schema rows' ≡ true
    sound-update_row id change rows rows' r' h e =
        let c = update_row-Changed id change rows rows' r' e in
        rw c.placed (sound-replace id r' rows h c.valued c.free)

    pub sound-insert_row :
        (refers : Bool) (row : Row) (rows rows' : List Row)
        → sound schema rows ≡ true
        → insert_row schema refers row rows ≡ ok rows'
        → sound schema rows' ≡ true
    sound-insert_row refers row rows rows' h e =
        let (same, v, free, there) = insert_row-ok refers row rows rows' e in
        rw same (sound-append row rows h v free)
