-- ===== src/Lease/Issue.antt =====
-- internal/store/repo/lease.go: one approval item, one lease.
use open_delo.Prelude.{
  find-mem, any-mem, String, ◌≡◌, refl, ◌∙◌, Bool, true, false, some, List, arith, ◌==◌, eq_iff,
}
use open_delo.Platform.AppError.{is_ok}
use open_delo.Lease.Rows.{Lease, Row, optional_text, to_row}
use open_delo.Lease.Statements.{clashes, Table, taken, create_lease, lease_row}
use open_delo.Lease.Repository.{issue_lease}
use open_delo.Lease.Evolution.{Call, run_all, run_all-Evolves}

create_lease-taken :
    (refers : Row → Bool) (r : Row) (rows : Table)
    → taken r rows ≡ true
    → is_ok (create_lease refers r rows) ≡ false
unfolding create_lease
create_lease-taken refers r rows h = ground (arith, h)

issue_lease_refused :
    (refers : Row → Bool) (l : Lease) (rows : Table)
    → is_ok (create_lease refers (to_row l) rows) ≡ false
    → (is_ok (issue_lease refers l rows).1 ≡ false) × ((issue_lease refers l rows).0 ≡ rows)
unfolding issue_lease
issue_lease_refused refers l rows h = ground (arith, h)

clashes_same_item :
    (r s : Row) (item : String)
    → r.approval_id ≡ some item
    → s.approval_id ≡ some item
    → clashes r s ≡ true
unfolding clashes
clashes_same_item r s item e f = ground (arith, e, f, eq_iff item item)

approval_id-to_row :
    (l : Lease) (item : String)
    → (item == "") ≡ false
    → l.approval_id ≡ item
    → (to_row l).approval_id ≡ some item
unfolding to_row optional_text
approval_id-to_row l item filled same = rw same (rw filled refl)

-- While a lease of an approval item is in the table, whatever calls follow, no second one is issued
-- for that item: `IssueLease` fails and leaves the table as it is.
pub issue_lease_once :
    (refers : Row → Bool) (cs : List Call) (id item : String) (rows : Table) (r : Row) (l : Lease)
    → lease_row id rows ≡ some r
    → r.approval_id ≡ some item
    → (item == "") ≡ false
    → l.approval_id ≡ item
    → (is_ok (issue_lease refers l (run_all refers cs rows)).1 ≡ false)
      × ((issue_lease refers l (run_all refers cs rows)).0 ≡ run_all refers cs rows)
unfolding lease_row taken
issue_lease_once refers cs id item rows r l found names filled same =
    let (s, there, e) = run_all-Evolves refers cs id rows r found in
    let later = run_all refers cs rows in
    let (member, _) = find-mem (λ x. x.id == id) later s there in
    issue_lease_refused refers l later (
      create_lease-taken refers (to_row l) later (
        any-mem (clashes (to_row l)) later s member (
          clashes_same_item (to_row l) s item (approval_id-to_row l item filled same)
            (e.approval_id ∙ names))))
