-- ===== src/Lease/Rows.antt =====
-- internal/core/lease/lease.go, the table of internal/store/migrations/00012_create_leases.sql, and
-- the conversions of internal/store/repo. A time of the program is in nanoseconds, a time column in
-- milliseconds; a column stands for its text. Up to the year 9999 the texts have one width, and their
-- order is the order of the times; a later one is written, but is not read again.
use open_delo.Prelude.{
  ℕ, suc, ◌*◌, ◌/◌, String, Bool, Option, none, some, leb, ltb, if◌then◌else◌, ◌==◌,
}
use open_delo.Prelude.Int.{ℤ, pos}
use open_delo.Platform.AppError.{Result, ok, err, ◌>>=◌, internal}

pub data Status : Type 0 where
  active expired exhausted revoked : Status
  other : String → Status

pub record Lease : Type 0 where
  pub id : String
  pub agent_id : String
  pub identity_id : String
  pub service : String
  pub resource_scope : String
  pub capabilities : String
  pub expires_at : ℕ
  pub request_limit : ℤ
  pub used_requests : ℕ
  pub status : Status
  pub approval_id : String
  pub is_session_bound : Bool
  pub source_memory_id : String
  pub created_at : ℕ
  pub updated_at : ℕ

-- A row of the table; NULL is `none`.
pub record Row : Type 0 where
  pub id : String
  pub agent_id : String
  pub identity_id : String
  pub service : String
  pub resource_scope : String
  pub capabilities : String
  pub expires_at : ℕ
  pub request_limit : Option ℕ
  pub used_requests : ℕ
  pub status : Status
  pub approval_id : Option String
  pub is_session_bound : Bool
  pub source_memory_id : Option String
  pub created_at : ℕ
  pub updated_at : ℕ

abbrev pub millisecond : ℕ
millisecond = 1_000_000

-- The fraction below a millisecond is cut off.
unfoldable pub encode_time : ℕ → ℕ
encode_time t = t / millisecond

-- The time of a column.
unfoldable pub time_of : ℕ → ℕ
time_of t = t * millisecond

-- The first millisecond of the year 10000, counted from the zero time, the start of the year 1: the
-- text of a time from there on has a fifth digit in its year, and `time.Parse` refuses it.
abbrev pub year_10000 : ℕ
year_10000 = 315_537_897_600_000

unfoldable pub decode_time : ℕ → Result ℕ
unfolding time_of
decode_time t = if ltb t year_10000 then ok (time_of t) else err internal

unfoldable pub optional_count : ℤ → Option ℕ
optional_count (pos (suc n)) = some (suc n)
optional_count _ = none

abbrev pub max_int32 : ℕ
max_int32 = 2_147_483_647

unfoldable pub decode_count : ℕ → Result ℕ
decode_count n = if leb n max_int32 then ok n else err internal

unfoldable pub decode_optional_count : Option ℕ → Result ℕ
decode_optional_count none = ok 0
decode_optional_count (some n) = decode_count n

unfoldable pub optional_text : String → Option String
optional_text s = if s == "" then none else some s

-- `NullString.String`
unfoldable pub text_of : Option String → String
text_of none = ""
text_of (some s) = s

unfoldable pub to_row : Lease → Row
unfolding encode_time optional_count optional_text
to_row l = record {
  id = l.id;
  agent_id = l.agent_id;
  identity_id = l.identity_id;
  service = l.service;
  resource_scope = l.resource_scope;
  capabilities = l.capabilities;
  expires_at = encode_time l.expires_at;
  request_limit = optional_count l.request_limit;
  used_requests = l.used_requests;
  status = l.status;
  approval_id = optional_text l.approval_id;
  is_session_bound = l.is_session_bound;
  source_memory_id = optional_text l.source_memory_id;
  created_at = encode_time l.created_at;
  updated_at = encode_time l.updated_at;
}

unfoldable pub to_lease : Row → Result Lease
to_lease r = do
  expires_at ← decode_time r.expires_at
  created_at ← decode_time r.created_at
  updated_at ← decode_time r.updated_at
  limit ← decode_optional_count r.request_limit
  used ← decode_count r.used_requests
  ok (record {
    id = r.id;
    agent_id = r.agent_id;
    identity_id = r.identity_id;
    service = r.service;
    resource_scope = r.resource_scope;
    capabilities = r.capabilities;
    expires_at = expires_at;
    request_limit = pos limit;
    used_requests = used;
    status = r.status;
    approval_id = text_of r.approval_id;
    is_session_bound = r.is_session_bound;
    source_memory_id = text_of r.source_memory_id;
    created_at = created_at;
    updated_at = updated_at;
  })
