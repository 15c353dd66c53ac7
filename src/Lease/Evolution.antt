-- ===== src/Lease/Evolution.antt =====
-- internal/store/repo/lease.go: what any sequence of calls, from whichever caller each comes, does
-- to a lease. Each call is one statement, so the calls of concurrent callers form a sequence.
use open_delo.Prelude.{
  ℕ, String, ◌≡◌, refl, inl, inr, Bool, true, some, List, [], ◌∷◌, ◌++◌, arith, Bool-cases,
}
use open_delo.Platform.AppError.{ok, Result-cases}
use open_delo.Lease.Rows.{Status, Lease, Row, encode_time, to_row}
use open_delo.Lease.Statements.{
  Table, is_active, known_status, create_lease, lease_row, update_row, can_consume, counted,
  consume_lease, can_close, closed, close_lease, can_shorten, shortened, shorten_lease,
}
use open_delo.Lease.Repository.{issue_lease, consume, close, shorten}
use open_delo.Lease.Updates.{updated, lease_row-update_row}
use open_delo.Lease.Changes.{
  Evolves, Evolves-refl, Evolves-trans, counted-Evolves, closed-Evolves, shortened-Evolves,
  updated-Evolves,
}

-- A call that writes, with its arguments.
pub data Call : Type 0 where
  issue_call : Lease → Call
  consume_call : String → ℕ → Call
  close_call : String → Status → ℕ → Call
  shorten_call : String → ℕ → ℕ → Call

-- The row with the key `j`, before and after.
abbrev pub Kept : String → Row → Table → Type 0
Kept j r rows = (s : Row) × (lease_row j rows ≡ some s) × Evolves r s

update_row-Kept :
    (id : String) (test : Row → Bool) (change : Row → Row)
    → ((s : Row) → (change s).id ≡ s.id)
    → ((s : Row) → test s ≡ true → Evolves s (change s))
    → (j : String) (rows : Table) (r : Row) → lease_row j rows ≡ some r
    → Kept j r (update_row id test change rows).0
update_row-Kept id test change keeps moves j rows r h = (
  updated id test change r,
  lease_row-update_row id test change keeps j rows r h,
  updated-Evolves id test change r moves,
)

lease_row-append :
    (j : String) (rows more : Table) (r : Row)
    → lease_row j rows ≡ some r
    → lease_row j (rows ++ more) ≡ some r
unfolding lease_row
lease_row-append j [] more r h = ground arith
lease_row-append j (s ∷ rows) more r h = ground (arith, lease_row-append j rows more r)

create_lease-ok :
    (refers : Row → Bool) (r : Row) (rows rows' : Table)
    → create_lease refers r rows ≡ ok rows'
    → rows' ≡ rows ++ r ∷ []
unfolding create_lease
create_lease-ok refers r rows rows' h = ground arith

module _ (refers : Row → Bool) where
  unfoldable pub run : Call → Table → Table
  run (issue_call l) rows = (issue_lease refers l rows).0
  run (consume_call id now) rows = (consume id now rows).0
  run (close_call id status at) rows = (close id status at rows).0
  run (shorten_call id to at) rows = (shorten id to at rows).0

  unfoldable pub run_all : List Call → Table → Table
  run_all [] rows = rows
  run_all (c ∷ cs) rows = run_all cs (run c rows)

  issue-Kept :
      (l : Lease) (j : String) (rows : Table) (r : Row)
      → lease_row j rows ≡ some r
      → Kept j r (issue_lease refers l rows).0
  unfolding issue_lease
  issue-Kept l j rows r h = elim (Result-cases (create_lease refers (to_row l) rows)) [
    | inl (rows', e) ↦
        let longer = create_lease-ok refers (to_row l) rows rows' e in
        rw (e, longer, issue_lease) (r, lease_row-append j rows (to_row l ∷ []) r h, Evolves-refl r)
    | inr (code, e) ↦ rw (e, issue_lease) (r, h, Evolves-refl r)
  ]

  close-Kept :
      (id : String) (status : Status) (at : ℕ) (j : String) (rows : Table) (r : Row)
      → lease_row j rows ≡ some r
      → Kept j r (close id status at rows).0
  unfolding close close_lease closed
  close-Kept id status at j rows r h =
      let moved =
        update_row-Kept id can_close (closed status (encode_time at)) (λ s. refl)
          (closed-Evolves status (encode_time at)) j rows r h in
      elim (Bool-cases (is_active status)) [
        | inl e ↦ rw e (r, h, Evolves-refl r)
        | inr e ↦ elim (Bool-cases (known_status status)) [
          | inl e' ↦ rw (e, e') moved
          | inr e' ↦ rw (e, e') (r, h, Evolves-refl r)
        ]
      ]

  pub run-Kept :
      (c : Call) (j : String) (rows : Table) (r : Row)
      → lease_row j rows ≡ some r
      → Kept j r (run c rows)
  unfolding run consume consume_lease shorten shorten_lease counted shortened
  run-Kept (issue_call l) j rows r h = issue-Kept l j rows r h
  run-Kept (consume_call id now) j rows r h =
      update_row-Kept id (can_consume (encode_time now)) (counted (encode_time now)) (λ s. refl)
        (counted-Evolves (encode_time now)) j rows r h
  run-Kept (close_call id status at) j rows r h = close-Kept id status at j rows r h
  run-Kept (shorten_call id to at) j rows r h =
      update_row-Kept id (can_shorten (encode_time to))
        (shortened (encode_time to) (encode_time at)) (λ s. refl)
        (shortened-Evolves (encode_time to) (encode_time at)) j rows r h

  pub run_all-Evolves :
      (cs : List Call) (j : String) (rows : Table) (r : Row)
      → lease_row j rows ≡ some r
      → (s : Row) × (lease_row j (run_all cs rows) ≡ some s) × Evolves r s
  unfolding run_all
  run_all-Evolves [] j rows r h = (r, h, Evolves-refl r)
  run_all-Evolves (c ∷ cs) j rows r h =
      let (s, found, e) = run-Kept c j rows r h in
      let (t, later, f) = run_all-Evolves cs j (run c rows) s found in
      (t, later, Evolves-trans r s t e f)
