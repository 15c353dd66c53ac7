-- ===== src/Lease/Use.antt =====
-- internal/core/lease/manager.go: what a successful use and a revocation guarantee.
use open_delo.Prelude.{
  ℕ, ◌<◌, String, ◌≡◌, refl, ap, ◌∙◌, subst, inl, inr, Bool, true, false, none, some, List, arith,
  eq_iff, Option-cases,
}
use open_delo.Platform.AppError.{conflict, err, ok, Result-cases, is_ok}
use open_delo.Scope.Dimensions.{Scope, covers_ignoring_window}
use open_delo.Lease.Rows.{Status, revoked, Lease, Row, encode_time, time_of, to_lease}
use open_delo.Lease.Statements.{
  Table, is_active, known_status, below_limit, taken, lease_row, update_row, can_consume, counted,
  consume_lease, can_close, closed, close_lease,
}
use open_delo.Lease.Repository.{returned, lease_by_id, consume, close}
use open_delo.Lease.Updates.{
  updated_option, returned-update_row, lease_row-update_row, lease_row-id,
}
use open_delo.Lease.Evolution.{Call, run_all, run_all-Evolves}
use open_delo.Lease.Counting.{consumable, is_found}
use open_delo.Lease.Manager.{Codec, wrapped, decode_grant, checked, use_lease, revoke}

to_lease-scope : (r : Row) (l : Lease) → to_lease r ≡ ok l → l.resource_scope ≡ r.resource_scope
unfolding to_lease
to_lease-scope r l h = ground arith

encode_time-before : (now e : ℕ) → encode_time now < e → now < time_of e
unfolding encode_time time_of
encode_time-before now e h = omega arith

-- `consume` counts where it succeeds.
consume-found :
    (id : String) (now : ℕ) (rows : Table) (l : Lease)
    → (consume id now rows).1 ≡ ok l
    → is_found (consume_lease id (encode_time now) rows).1 ≡ true
unfolding consume
consume-found id now rows l h = ground arith

can_consume-parts :
    (t : ℕ) (r : Row)
    → can_consume t r ≡ true
    → (is_active r.status ≡ true) × (t < r.expires_at) × (below_limit r ≡ true)
unfolding can_consume
can_consume-parts t r h = ground arith

module _ (codec : Codec) where
  -- The lease was read with a scope that covers the request, and when the use was counted it had
  -- that scope still, was active, not expired and below its limit.
  pub record Authorised (id : String) (requested : Scope) (now : ℕ) (rows counting : Table)
      : Type 0 where
    pub read : Row
    pub found : lease_row id rows ≡ some read
    pub granted : Scope
    pub decoded : codec.unmarshal_scope read.resource_scope ≡ some granted
    pub covered : covers_ignoring_window granted requested ≡ true
    pub row : Row
    pub row_found : lease_row id counting ≡ some row
    pub same_scope : row.resource_scope ≡ read.resource_scope
    pub still_active : is_active row.status ≡ true
    pub unexpired : now < time_of row.expires_at
    pub left : below_limit row ≡ true

  decode_grant-ok :
      (text : String) (g : Scope)
      → decode_grant codec text ≡ ok g
      → codec.unmarshal_scope text ≡ some g
  unfolding decode_grant wrapped
  decode_grant-ok text g h = ground arith

  checked-ok :
      (id : String) (requested : Scope) (rows : Table)
      → is_ok (checked codec id requested rows) ≡ true
      → (r : Row) × (lease_row id rows ≡ some r)
        × ((g : Scope) × (codec.unmarshal_scope r.resource_scope ≡ some g)
            × (covers_ignoring_window g requested ≡ true))
  unfolding checked lease_by_id returned
  checked-ok id requested rows h = elim (Option-cases (lease_row id rows)) [
    | inl e ↦ ground (arith, e, h)
    | inr (r, e) ↦ elim (Result-cases (to_lease r)) [
      | inr (code, e') ↦ ground (arith, e, e', h)
      | inl (l, e') ↦ elim (Result-cases (decode_grant codec l.resource_scope)) [
        | inr (code, e'') ↦ ground (arith, e, e', e'', h)
        | inl (g, e'') ↦
            let text = to_lease-scope r l e' in
            let decoded = decode_grant-ok l.resource_scope g e'' in
            (r, e, (g, rw (← text) decoded, ground (arith, e, e', e'', h)))
      ]
    ]
  ]

  use_lease-parts :
      (refers : Row → Bool) (before after : List Call) (id : String) (requested : Scope)
      (now later : ℕ) (rows : Table) (l : Lease)
      → (use_lease codec refers before after id requested now later rows).1 ≡ ok l
      → (is_ok (checked codec id requested rows) ≡ true)
        × (is_found (consume_lease id (encode_time now) (run_all refers before rows)).1 ≡ true)
  unfolding use_lease
  use_lease-parts refers before after id requested now later rows l h =
      elim (Result-cases (checked codec id requested rows)) [
        | inr (code, e) ↦ ground (arith, e, h)
        | inl (u, e) ↦ elim (Result-cases (consume id now (run_all refers before rows)).1) [
          | inr (code, e') ↦ ground (arith, e, e', h)
          | inl (m, e') ↦
              (ground (arith, e), consume-found id now (run_all refers before rows) m e')
        ]
      ]

  -- A use that succeeds was authorised, whatever calls of other callers ran between its statements:
  -- the lease that was read covers the request, and at the moment of counting its row has the same
  -- scope, is active, not expired, and below its request limit.
  pub use_lease-Authorised :
      (refers : Row → Bool) (before after : List Call) (id : String) (requested : Scope)
      (now later : ℕ) (rows : Table) (l : Lease)
      → (use_lease codec refers before after id requested now later rows).1 ≡ ok l
      → Authorised id requested now rows (run_all refers before rows)
  use_lease-Authorised refers before after id requested now later rows l h =
      let (passed, taken) = use_lease-parts refers before after id requested now later rows l h in
      let (r, found, (g, decoded, covered)) = checked-ok id requested rows passed in
      let (s, there, e) = run_all-Evolves refers before id rows r found in
      let able =
        consumable refers id (encode_time now) (run_all refers before rows) s there taken in
      let (is_on, in_time, left) = can_consume-parts (encode_time now) s able in
      record {
        read = r;
        found = found;
        granted = g;
        decoded = decoded;
        covered = covered;
        row = s;
        row_found = there;
        same_scope = e.resource_scope;
        still_active = is_on;
        unexpired = encode_time-before now s.expires_at in_time;
        left = left;
      }

closable :
    (id : String) (status : Status) (t : ℕ) (rows : Table) (r : Row)
    → lease_row id rows ≡ some r
    → is_found (close_lease id status t rows).1 ≡ true
    → can_close r ≡ true
unfolding close_lease
closable id status t rows r h hit =
    let found : is_found (updated_option id can_close (closed status t) (some r)) ≡ true =
      subst (λ o. is_found (updated_option id can_close (closed status t) o) ≡ true) h
        (rw (← returned-update_row id can_close (closed status t) rows) hit) in
    ground (arith, found)

revoked_inactive : (t : ℕ) (r : Row) → is_active (closed revoked t r).status ≡ false
unfolding closed is_active
revoked_inactive t r = refl

revoked-row :
    (id : String) (at : ℕ) (rows : Table) (r : Row) (l : Lease)
    → lease_row id rows ≡ some r
    → (revoke id at rows).1 ≡ ok l
    → lease_row id (revoke id at rows).0 ≡ some (closed revoked (encode_time at) r)
unfolding revoke close close_lease is_active known_status closed
revoked-row id at rows r l h done =
    let t = encode_time at in
    let hit = returned-update_row id can_close (closed revoked t) rows in
    let able = closable id revoked t rows r h (ground (arith, done)) in
    let moved = lease_row-update_row id can_close (closed revoked t) (λ s. refl) id rows r h in
    let named = lease_row-id id rows r h in ground (arith, moved, able, named, eq_iff r.id id)

inactive-consume :
    (id : String) (now : ℕ) (rows : Table) (r : Row)
    → lease_row id rows ≡ some r
    → is_active r.status ≡ false
    → (consume id now rows).1 ≡ err conflict
unfolding consume consume_lease can_consume returned
inactive-consume id now rows r h off =
    let t = encode_time now in
    let hit = returned-update_row id (can_consume t) (counted t) rows in
    let none_hit : (update_row id (can_consume t) (counted t) rows).1 ≡ none =
      hit ∙ rw h (rw off refl) in
    rw none_hit refl

-- Once a lease was revoked, no later use of it is counted: whatever calls follow, `Consume` finds it
-- gone and returns `conflict`.
pub revoke-consume :
    (refers : Row → Bool) (cs : List Call) (id : String) (at now : ℕ) (rows : Table) (r : Row)
    (l : Lease)
    → lease_row id rows ≡ some r
    → (revoke id at rows).1 ≡ ok l
    → (consume id now (run_all refers cs (revoke id at rows).0)).1 ≡ err conflict
revoke-consume refers cs id at now rows r l h done =
    let closed_row = revoked-row id at rows r l h done in
    let (s, there, e) =
      run_all-Evolves refers cs id (revoke id at rows).0 (closed revoked (encode_time at) r)
        closed_row in
    let same = e.frozen (revoked_inactive (encode_time at) r) in
    inactive-consume id now (run_all refers cs (revoke id at rows).0) s there
      (ap (λ x. is_active x.status) same ∙ revoked_inactive (encode_time at) r)
