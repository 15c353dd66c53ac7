-- ===== src/Examples/Leases.antt =====
-- Runs of internal/core/lease on concrete inputs.
use open_delo.Prelude.{
  leb→le, ltb→lt, ◌*◌, ◌+◌, ◌≤◌, ◌≡◌, refl, Bool, true, false, none, some, List, [], ◌∷◌, arith,
  ◌==◌, if◌then◌else◌,
}
use open_delo.Prelude.Int.{pos}
use open_delo.Platform.AppError.{is_ok, conflict, err, ok}
use open_delo.Scope.Dimensions.{
  valid_environment, level_rank, valid_level, dimension_checks, check_dimensions, validate,
  is_valid, mentions_wild, has_wildcard, value_of, agrees_on, same_resource, same_environment,
  same_names, covers, covers_ignoring_window,
}
use open_delo.Lease.Rows.{
  millisecond, max_int32, to_row, active, revoked, Lease, Row, encode_time, decode_time, time_of,
  year_10000, decode_count, decode_optional_count, text_of, to_lease,
}
use open_delo.Lease.Statements.{
  Table, is_active, known_status, below_limit, lease_row, update_row, can_consume, counted,
  consume_lease, can_close, closed, close_lease, can_shorten, shortened, shorten_lease,
}
use open_delo.Lease.Repository.{issue_lease, returned, lease_by_id, consume, close, shorten}
use open_delo.Lease.Evolution.{Call, consume_call, shorten_call, run, run_all}
use open_delo.Lease.Counting.{uses, takes, uses-bounded}
use open_delo.Lease.Manager.{Codec, wrapped, decode_grant, checked, used_up, use_lease, revoke}
use open_delo.Lease.RoundTrip.{to_lease-to_row}
use open_delo.Lease.Issue.{issue_lease_once}
use open_delo.Lease.Use.{Authorised, use_lease-Authorised, revoke-consume}
use open_delo.Examples.Samples.{read_scope}

-- A codec of two texts.
abbrev pub sample_codec : Codec
sample_codec = record {
  marshal_scope = λ s. some "read";
  marshal_names = λ names. some "names";
  unmarshal_scope = λ text. if text == "read" then some read_scope else none;
}

abbrev any_row : Row → Bool
any_row r = true

abbrev issued : Row
issued = record {
  id = "lease-1";
  agent_id = "agent";
  identity_id = "id-work";
  service = "calendar";
  resource_scope = "read";
  capabilities = "names";
  expires_at = 900_000;
  request_limit = some 2;
  used_requests = 0;
  status = active;
  approval_id = some "approval-1";
  is_session_bound = false;
  source_memory_id = none;
  created_at = 0;
  updated_at = 0;
}

abbrev table : Table
table = issued ∷ []

issued_there : lease_row "lease-1" table ≡ some issued
unfolding lease_row
issued_there = refl

-- Two agents' calls, the user's in between.
abbrev calls : List Call
calls =
    consume_call "lease-1" 5_000_000
    ∷ shorten_call "lease-1" 800_000_000_000 6_000_000
    ∷ consume_call "lease-1" 7_000_000
    ∷ consume_call "lease-1" 8_000_000
    ∷ []

uses-bounded_example : 0 + uses any_row "lease-1" calls table ≤ 2
uses-bounded_example =
    uses-bounded any_row "lease-1" calls table issued 2 issued_there refl (omega arith)

-- Two of the three are counted.
two_uses : uses any_row "lease-1" calls table ≡ 2
unfolding uses takes run consume shorten shorten_lease can_shorten shortened returned lease_row
    update_row consume_lease can_consume counted is_active below_limit encode_time
two_uses = refl

abbrev after_use : Lease
after_use = record {
  id = "lease-1";
  agent_id = "agent";
  identity_id = "id-work";
  service = "calendar";
  resource_scope = "read";
  capabilities = "names";
  expires_at = 900_000_000_000;
  request_limit = pos 2;
  used_requests = 1;
  status = active;
  approval_id = "approval-1";
  is_session_bound = false;
  source_memory_id = "";
  created_at = 0;
  updated_at = 5_000_000;
}

use_passes :
    (use_lease sample_codec any_row [] [] "lease-1" read_scope 5_000_000 6_000_000 table).1
    ≡ ok after_use
unfolding use_lease checked lease_by_id decode_grant wrapped to_lease decode_optional_count
    decode_count decode_time time_of text_of used_up run_all consume returned lease_row update_row
    consume_lease can_consume counted is_active below_limit encode_time covers_ignoring_window
    covers same_names same_resource same_environment agrees_on value_of has_wildcard mentions_wild
    level_rank is_valid validate check_dimensions dimension_checks valid_environment valid_level
use_passes = refl

use_lease-Authorised_example :
    Authorised sample_codec "lease-1" read_scope 5_000_000 table (run_all any_row [] table)
use_lease-Authorised_example =
    use_lease-Authorised sample_codec any_row [] [] "lease-1" read_scope 5_000_000 6_000_000 table
      after_use use_passes

abbrev after_revoke : Lease
after_revoke = record after_use { used_requests = 0; status = revoked; updated_at = 6_000_000 }

revoke_passes : (revoke "lease-1" 6_000_000 table).1 ≡ ok after_revoke
unfolding revoke close close_lease can_close closed known_status returned to_lease
    decode_optional_count decode_count decode_time time_of text_of update_row is_active encode_time
revoke_passes = refl

revoke-consume_example :
    (consume "lease-1" 7_000_000 (run_all any_row calls (revoke "lease-1" 6_000_000 table).0)).1
    ≡ err conflict
revoke-consume_example =
    revoke-consume any_row calls "lease-1" 6_000_000 7_000_000 table issued after_revoke
      issued_there revoke_passes

-- A second lease for the approval item that the first one has.
abbrev second : Lease
second = record after_use { id = "lease-2"; used_requests = 0 }

issue_lease_once_example :
    (is_ok (issue_lease any_row second (run_all any_row calls table)).1 ≡ false)
    × ((issue_lease any_row second (run_all any_row calls table)).0 ≡ run_all any_row calls table)
issue_lease_once_example =
    issue_lease_once any_row calls "lease-1" "approval-1" table issued second issued_there refl refl
      refl

-- A lease of two requests until the fifteenth minute.
abbrev stored : Lease
stored = record {
  id = "lease-2";
  agent_id = "agent";
  identity_id = "id-work";
  service = "calendar";
  resource_scope = "read";
  capabilities = "names";
  expires_at = 900_000 * millisecond;
  request_limit = pos 2;
  used_requests = 1;
  status = active;
  approval_id = "";
  is_session_bound = true;
  source_memory_id = "memory-1";
  created_at = 5 * millisecond;
  updated_at = 7 * millisecond;
}

to_lease-to_row_example : to_lease (to_row stored) ≡ ok stored
to_lease-to_row_example =
    to_lease-to_row stored 2 900_000 5 7 refl (leb→le 2 max_int32 refl) (leb→le 1 max_int32 refl)
      (ltb→lt 900_000 year_10000 refl) (ltb→lt 5 year_10000 refl) (ltb→lt 7 year_10000 refl) refl
      refl refl
