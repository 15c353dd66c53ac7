-- ===== src/Lease/Counting.antt =====
-- internal/store/repo/lease.go: how often a lease can be used.
use open_delo.Prelude.{
  ℕ, ◌+◌, ◌≤◌, String, ◌≡◌, refl, ◌∙◌, subst, inl, inr, Bool, true, false, ◌&&◌, Option, none, some,
  List, [], ◌∷◌, arith, ◌==◌, eq_iff, if◌then◌else◌, Bool-cases,
}
use open_delo.Lease.Rows.{Row, encode_time}
use open_delo.Lease.Statements.{Table, taken, lease_row, can_consume, counted, consume_lease}
use open_delo.Lease.Repository.{consume}
use open_delo.Lease.Updates.{
  updated_option, lease_row-id, lease_row-update_row, returned-update_row,
}
use open_delo.Lease.Evolution.{
  Call, issue_call, consume_call, close_call, shorten_call, run, run-Kept,
}

abbrev pub is_found : Option Row → Bool
is_found none = false
is_found (some r) = true

-- A call that counts a use of the lease with this key.
unfoldable pub takes : String → Call → Table → Bool
takes id (consume_call j now) rows =
    (j == id) && is_found (consume_lease j (encode_time now) rows).1
takes id _ rows = false

module _ (refers : Row → Bool) where
  -- The number of uses of this lease that are counted.
  unfoldable pub uses : String → List Call → Table → ℕ
  unfolding takes
  uses id [] rows = 0
  uses id (c ∷ cs) rows = (if takes id c rows then 1 else 0) + uses id cs (run refers c rows)

  pub consumable :
      (id : String) (t : ℕ) (rows : Table) (r : Row)
      → lease_row id rows ≡ some r
      → is_found (consume_lease id t rows).1 ≡ true
      → can_consume t r ≡ true
  unfolding consume_lease
  consumable id t rows r h taken =
      let hit = returned-update_row id (can_consume t) (counted t) rows in
      let found : is_found (updated_option id (can_consume t) (counted t) (some r)) ≡ true =
        subst (λ o. is_found (updated_option id (can_consume t) (counted t) o) ≡ true) h
          (rw (← hit) taken) in
      ground (arith, found)

  consumed-used :
      (id : String) (t : ℕ) (rows : Table) (r s : Row)
      → lease_row id rows ≡ some r
      → lease_row id (consume_lease id t rows).0 ≡ some s
      → is_found (consume_lease id t rows).1 ≡ true
      → s.used_requests ≡ r.used_requests + 1
  unfolding consume_lease counted
  consumed-used id t rows r s h later taken =
      let able = consumable id t rows r h taken in
      let moved = lease_row-update_row id (can_consume t) (counted t) (λ x. refl) id rows r h in
      let named = lease_row-id id rows r h in
      ground (arith, moved, later, able, named, eq_iff r.id id)

  takes-used :
      (id : String) (c : Call) (rows : Table) (r s : Row)
      → lease_row id rows ≡ some r
      → lease_row id (run refers c rows) ≡ some s
      → takes id c rows ≡ true
      → s.used_requests ≡ r.used_requests + 1
  unfolding takes run consume
  takes-used id (issue_call l) rows r s h later t = ground arith
  takes-used id (close_call j status at) rows r s h later t = ground arith
  takes-used id (shorten_call j to at) rows r s h later t = ground arith
  takes-used id (consume_call j now) rows r s h later t =
      let same : j ≡ id = ground (arith, t, eq_iff j id) in
      consumed-used id (encode_time now) rows r s h
        (subst (λ k. lease_row id (consume_lease k (encode_time now) rows).0 ≡ some s) same later)
        (subst (λ k. is_found (consume_lease k (encode_time now) rows).1 ≡ true) same
          (ground (arith, t)))

  -- A lease with a limit that its count does not exceed: whatever calls follow, from whichever
  -- callers, the uses counted of it are no more than were left.
  pub uses-bounded :
      (id : String) (cs : List Call) (rows : Table) (r : Row) (n : ℕ)
      → lease_row id rows ≡ some r
      → r.request_limit ≡ some n
      → r.used_requests ≤ n
      → r.used_requests + uses id cs rows ≤ n
  unfolding uses
  uses-bounded id [] rows r n h limited u = omega arith
  uses-bounded id (c ∷ cs) rows r n h limited u =
      let (s, found, e) = run-Kept refers c id rows r h in
      let rest =
        uses-bounded id cs (run refers c rows) s n found (e.request_limit ∙ limited)
          (e.within n limited u) in
      elim (Bool-cases (takes id c rows)) [
        | inl t ↦ let more = takes-used id c rows r s h found t in ground (arith, t, more, rest)
        | inr f ↦ let more = e.used in ground (arith, f, more, rest)
      ]
