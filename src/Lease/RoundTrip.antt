-- ===== src/Lease/RoundTrip.antt =====
-- internal/store/repo/lease.go: a lease that is written and read back.
use open_delo.Prelude.{
  ℕ, zero, suc, ◌*◌, ◌≤◌, ◌<◌, lt→ltb, String, ◌≡◌, refl, sym, inl, inr, arith, ◌==◌, eq_iff,
  Bool-cases,
}
use open_delo.Prelude.Int.{pos}
use open_delo.Platform.AppError.{ok}
use open_delo.Lease.Rows.{
  Lease, millisecond, max_int32, year_10000, time_of, encode_time, decode_time, optional_count,
  optional_text, text_of, decode_count, decode_optional_count, to_row, to_lease,
}

text_of-optional_text : (s : String) → text_of (optional_text s) ≡ s
unfolding text_of optional_text
text_of-optional_text s = elim (Bool-cases (s == "")) [
  | inl e ↦ rw e (sym ((eq_iff s "").0 e))
  | inr e ↦ rw e refl
]

decode_time-encode_time :
    (t k : ℕ) → k < year_10000 → t ≡ k * millisecond → decode_time (encode_time t) ≡ ok t
unfolding decode_time time_of encode_time
decode_time-encode_time t k early e =
    let same : encode_time t ≡ k = omega arith in
    let back : time_of k ≡ t = omega arith in rw (same, lt→ltb k year_10000 early, back) refl

decode_count-ok : (n : ℕ) → n ≤ max_int32 → decode_count n ≡ ok n
unfolding decode_count
decode_count-ok n h = ground (arith, h)

decode-optional_count :
    (n : ℕ) → n ≤ max_int32 → decode_optional_count (optional_count (pos n)) ≡ ok n
unfolding decode_optional_count optional_count
decode-optional_count zero h = refl
decode-optional_count (suc n) h = decode_count-ok (suc n) h

-- A lease whose times are whole milliseconds before the year 10000, whose limit is not negative and
-- whose limit and count are no greater than 2147483647 comes back as it was written, no approval item
-- and no memory included.
pub to_lease-to_row :
    (l : Lease) (n expiry created updated : ℕ)
    → l.request_limit ≡ pos n
    → n ≤ max_int32
    → l.used_requests ≤ max_int32
    → expiry < year_10000
    → created < year_10000
    → updated < year_10000
    → l.expires_at ≡ expiry * millisecond
    → l.created_at ≡ created * millisecond
    → l.updated_at ≡ updated * millisecond
    → to_lease (to_row l) ≡ ok l
unfolding to_lease to_row
to_lease-to_row l n expiry created updated limit small used e_early c_early u_early e c u =
    rw
      (
        limit,
        decode-optional_count n small,
        decode_count-ok l.used_requests used,
        decode_time-encode_time l.expires_at expiry e_early e,
        decode_time-encode_time l.created_at created c_early c,
        decode_time-encode_time l.updated_at updated u_early u,
        text_of-optional_text l.approval_id,
        text_of-optional_text l.source_memory_id,
      )
      refl
