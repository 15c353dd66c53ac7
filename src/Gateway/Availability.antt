-- ===== src/Gateway/Availability.antt =====
-- internal/core/gateway/availability.go: two flags, each read and written atomically.
use open_delo.Prelude.{
  ◌≡◌, refl, Bool, true, false, Option, none, some, List, [], ◌∷◌, arith, if◌then◌else◌,
}
use open_delo.Platform.AppError.{Result, ok, err, gateway_unavailable}
use open_delo.Decision.FailClosed.{Blocker, gateway_offline}

pub record Availability : Type 0 where
  pub serving : Bool
  pub stopped : Bool

-- `New`, the zero value.
abbrev pub new : Availability
new = record { serving = false; stopped = false }

-- `Serve` when nothing runs beside it: the flags after it and what it returns.
unfoldable pub serve : Availability → Availability × Bool
serve a = if a.stopped then (a, false) else (record a { serving = true }, true)

unfoldable pub stop : Availability → Availability
stop a = record a { serving = false; stopped = true }

-- `Serving`
unfoldable pub is_serving : Availability → Bool
is_serving a = a.serving

unfoldable pub check : Availability → Result (Unit {0})
unfolding is_serving
check a = if is_serving a then ok tt else err gateway_unavailable

unfoldable pub blocker : Availability → Option Blocker
unfolding is_serving
blocker a = if is_serving a then none else some gateway_offline

-- The calls that callers can make.
pub data Call : Type 0 where
  serve_call stop_call : Call

unfoldable pub call : Call → Availability → Availability
unfolding serve stop
call serve_call a = (serve a).0
call stop_call a = stop a

unfoldable pub call_all : List Call → Availability → Availability
call_all [] a = a
call_all (c ∷ cs) a = call_all cs (call c a)

serve-stopped : (a : Availability) → a.stopped ≡ true → (serve a).0 ≡ a
unfolding serve
serve-stopped a s = ground (arith, s)

call_all-off :
    (cs : List Call) (a : Availability)
    → a.stopped ≡ true
    → a.serving ≡ false
    → ((call_all cs a).stopped ≡ true) × ((call_all cs a).serving ≡ false)
unfolding call_all call stop
call_all-off [] a s off = (s, off)
call_all-off (serve_call ∷ cs) a s off = rw (serve-stopped a s, call_all) (call_all-off cs a s off)
call_all-off (stop_call ∷ cs) a s off = call_all-off cs (stop a) refl refl

-- Where no two calls overlap, a gateway that was stopped refuses every request for good: after any
-- further calls `Serve` returns false, `Check` gives `gateway_unavailable`, and the blocker is
-- `gateway_offline`.
pub stop-off :
    (cs : List Call) (a : Availability)
    → ((serve (call_all cs (stop a))).1 ≡ false)
      × (check (call_all cs (stop a)) ≡ err gateway_unavailable)
      × (blocker (call_all cs (stop a)) ≡ some gateway_offline)
unfolding stop serve check blocker is_serving
stop-off cs a =
    let (stopped, off) = call_all-off cs (stop a) refl refl in
    (rw stopped refl, rw off refl, rw off refl)
