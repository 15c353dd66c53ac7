-- ===== src/Lease/Updates.antt =====
-- internal/store/queries/leases.sql: what an update by key does to the row of each key.
use open_delo.Prelude.{
  String, ◌≡◌, refl, Bool, false, ◌&&◌, Option, none, some, [], ◌∷◌, eq_iff, arith, Bool-cases, inl,
  inr, if◌then◌else◌, ◌==◌,
}
use open_delo.Lease.Rows.{Row}
use open_delo.Lease.Statements.{Table, lease_row, update_row}

pub lease_row-id : (j : String) (rows : Table) (r : Row) → lease_row j rows ≡ some r → r.id ≡ j
unfolding lease_row
lease_row-id j [] r h = ground arith
lease_row-id j (s ∷ rows) r h = ground (arith, lease_row-id j rows r, eq_iff s.id j)

module _ (id : String) (test : Row → Bool) (change : Row → Row) where
  abbrev pub updated : Row → Row
  updated r = if (r.id == id) && test r then change r else r

  abbrev pub updated_option : Option Row → Option Row
  updated_option none = none
  updated_option (some r) = if test r then some (change r) else none

  -- The row of each key after the update.
  pub lease_row-update_row :
      (keeps : (r : Row) → (change r).id ≡ r.id) (j : String) (rows : Table) (r : Row)
      → lease_row j rows ≡ some r
      → lease_row j (update_row id test change rows).0 ≡ some (updated r)
  unfolding lease_row update_row
  lease_row-update_row keeps j [] r h = ground arith
  lease_row-update_row keeps j (s ∷ rows) r h =
      let named = lease_row-id j (s ∷ rows) r h in
      let kept = keeps s in
      elim (Bool-cases (s.id == id)) [
        | inl here ↦ elim (Bool-cases (test s)) [
          | inl passes ↦ elim (Bool-cases (s.id == j)) [
            | inl e ↦
                let same : s ≡ r = ground (arith, e, h) in
                rw (← same) (rw here (rw passes (rw kept (rw e refl))))
            | inr e ↦
                let other : (r.id == id) ≡ false =
                  ground (arith, eq_iff s.id id, eq_iff s.id j, eq_iff r.id id) in
                rw other (rw here (rw passes (rw kept (rw e (rw e at h)))))
          ]
          | inr fails ↦ elim (Bool-cases (s.id == j)) [
            | inl e ↦
                let same : s ≡ r = ground (arith, e, h) in
                rw (← same) (rw here (rw fails (rw e refl)))
            | inr e ↦
                let other : (r.id == id) ≡ false =
                  ground (arith, eq_iff s.id id, eq_iff s.id j, eq_iff r.id id) in
                rw other (rw here (rw fails (rw e (rw e at h))))
          ]
        ]
        | inr there ↦ elim (Bool-cases (s.id == j)) [
          | inl e ↦ let same : s ≡ r = ground (arith, e, h) in rw (← same) (rw there (rw e refl))
          | inr e ↦
              let rest = lease_row-update_row keeps j rows r (rw e at h) in rw there (rw e rest)
        ]
      ]

  -- The row that the update returns.
  pub returned-update_row :
      (rows : Table) → (update_row id test change rows).1 ≡ updated_option (lease_row id rows)
  unfolding lease_row update_row
  returned-update_row [] = refl
  returned-update_row (s ∷ rows) = ground (arith, returned-update_row rows)
