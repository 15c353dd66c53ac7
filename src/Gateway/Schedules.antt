-- ===== src/Gateway/Schedules.antt =====
-- internal/core/gateway/availability.go: one `Serve` and one `Stop` that overlap. Each call reads or
-- writes one flag at a time, and the two take turns in any order.
use open_delo.Prelude.{
  ◌≡◌, Bool, true, false, Option, none, some, List, [], ◌∷◌, arith, contradiction, if◌then◌else◌,
}
use open_delo.Gateway.Availability.{Availability, is_serving}

-- Where `Serve` stands: not begun, past its read of `stopped`, or back with what it returns.
pub data ServeAt : Type 0 where
  before_load : ServeAt
  before_store : ServeAt
  served : Bool → ServeAt

-- Where `Stop` stands: not begun, past its write of `stopped`, or back.
pub data StopAt : Type 0 where
  before_mark before_clear stopped_off : StopAt

pub record Race : Type 0 where
  pub flags : Availability
  pub serve_at : ServeAt
  pub stop_at : StopAt

pub data Caller : Type 0 where
  server stopper : Caller

-- The next access of `Serve`; none where it is back.
unfoldable pub serve_turn : ServeAt → Race → Option Race
serve_turn before_load r =
    some (record r { serve_at = if r.flags.stopped then served false else before_store })
serve_turn before_store r =
    some (record r { flags = record r.flags { serving = true }; serve_at = served true })
serve_turn (served result) r = none

-- The next access of `Stop`; none where it is back.
unfoldable pub stop_turn : StopAt → Race → Option Race
stop_turn before_mark r =
    some (record r { flags = record r.flags { stopped = true }; stop_at = before_clear })
stop_turn before_clear r =
    some (record r { flags = record r.flags { serving = false }; stop_at = stopped_off })
stop_turn stopped_off r = none

unfoldable pub turn : Caller → Race → Option Race
unfolding serve_turn stop_turn
turn server r = serve_turn r.serve_at r
turn stopper r = stop_turn r.stop_at r

-- The turns in their order; none where a caller that is back has a turn.
unfoldable pub run : List Caller → Race → Option Race
unfolding turn
run [] r = some r
run (c ∷ cs) r = elim (turn c r) [ none ↦ none | some r' ↦ run cs r' ]

-- Both calls ahead, on a gateway that was not stopped.
abbrev pub start : Bool → Race
start serving = record {
  flags = record { serving = serving; stopped = false };
  serve_at = before_load;
  stop_at = before_mark;
}

-- Both calls are back.
unfoldable pub is_over : Race → Bool
is_over r = elim r.stop_at [
  | before_mark ↦ false
  | before_clear ↦ false
  | stopped_off ↦ elim r.serve_at [ before_load ↦ false | before_store ↦ false | served _ ↦ true ]
]

-- `Serve` reads the flag, then `Stop` runs as a whole, then `Serve` writes its own.
unfoldable pub overtakes : List Caller → Bool
overtakes (server ∷ stopper ∷ stopper ∷ server ∷ []) = true
overtakes _ = false

-- `Serve` has both its turns before `Stop` begins.
serve_before :
    (serving : Bool) (cs : List Caller) (r : Race)
    → run (server ∷ server ∷ cs) (start serving) ≡ some r
    → is_over r ≡ true
    → (r.flags.stopped ≡ true) × (is_serving r.flags ≡ overtakes (server ∷ server ∷ cs))
unfolding run turn serve_turn stop_turn is_over overtakes is_serving
serve_before serving [] r h over = contradiction (ground (arith, h, over))
serve_before serving (server ∷ cs) r h over = contradiction (ground (arith, h))
serve_before serving (stopper ∷ []) r h over = contradiction (ground (arith, h, over))
serve_before serving (stopper ∷ server ∷ cs) r h over = contradiction (ground (arith, h))
serve_before serving (stopper ∷ stopper ∷ []) r h over = (ground (arith, h), ground (arith, h))
serve_before serving (stopper ∷ stopper ∷ server ∷ cs) r h over = contradiction (ground (arith, h))
serve_before serving (stopper ∷ stopper ∷ stopper ∷ cs) r h over = contradiction (ground (arith, h))

-- `Serve` has read the flag when `Stop` writes it.
overlapped :
    (serving : Bool) (cs : List Caller) (r : Race)
    → run (server ∷ stopper ∷ cs) (start serving) ≡ some r
    → is_over r ≡ true
    → (r.flags.stopped ≡ true) × (is_serving r.flags ≡ overtakes (server ∷ stopper ∷ cs))
unfolding run turn serve_turn stop_turn is_over overtakes is_serving
overlapped serving [] r h over = contradiction (ground (arith, h, over))
overlapped serving (server ∷ []) r h over = contradiction (ground (arith, h, over))
overlapped serving (server ∷ server ∷ cs) r h over = contradiction (ground (arith, h))
overlapped serving (server ∷ stopper ∷ []) r h over = (ground (arith, h), ground (arith, h))
overlapped serving (server ∷ stopper ∷ server ∷ cs) r h over = contradiction (ground (arith, h))
overlapped serving (server ∷ stopper ∷ stopper ∷ cs) r h over = contradiction (ground (arith, h))
overlapped serving (stopper ∷ []) r h over = contradiction (ground (arith, h, over))
overlapped serving (stopper ∷ server ∷ []) r h over = (ground (arith, h), ground (arith, h))
overlapped serving (stopper ∷ server ∷ server ∷ cs) r h over = contradiction (ground (arith, h))
overlapped serving (stopper ∷ server ∷ stopper ∷ cs) r h over = contradiction (ground (arith, h))
overlapped serving (stopper ∷ stopper ∷ cs) r h over = contradiction (ground (arith, h))

-- `Stop` has the first turn.
stop_before :
    (serving : Bool) (cs : List Caller) (r : Race)
    → run (stopper ∷ cs) (start serving) ≡ some r
    → is_over r ≡ true
    → (r.flags.stopped ≡ true) × (is_serving r.flags ≡ overtakes (stopper ∷ cs))
unfolding run turn serve_turn stop_turn is_over overtakes is_serving
stop_before serving [] r h over = contradiction (ground (arith, h, over))
stop_before serving (server ∷ []) r h over = contradiction (ground (arith, h, over))
stop_before serving (server ∷ server ∷ cs) r h over = contradiction (ground (arith, h))
stop_before serving (server ∷ stopper ∷ []) r h over = (ground (arith, h), ground (arith, h))
stop_before serving (server ∷ stopper ∷ server ∷ cs) r h over = contradiction (ground (arith, h))
stop_before serving (server ∷ stopper ∷ stopper ∷ cs) r h over = contradiction (ground (arith, h))
stop_before serving (stopper ∷ []) r h over = contradiction (ground (arith, h, over))
stop_before serving (stopper ∷ server ∷ []) r h over = (ground (arith, h), ground (arith, h))
stop_before serving (stopper ∷ server ∷ server ∷ cs) r h over = contradiction (ground (arith, h))
stop_before serving (stopper ∷ server ∷ stopper ∷ cs) r h over = contradiction (ground (arith, h))
stop_before serving (stopper ∷ stopper ∷ cs) r h over = contradiction (ground (arith, h))

-- Once one `Serve` and one `Stop` on a gateway that was not stopped are both back, in whatever order
-- they took their turns, the gateway is marked as stopped, and it serves nevertheless exactly where
-- all of `Stop` ran between the two accesses of `Serve`.
pub stop_overtaken :
    (serving : Bool) (turns : List Caller) (r : Race)
    → run turns (start serving) ≡ some r
    → is_over r ≡ true
    → (r.flags.stopped ≡ true) × (is_serving r.flags ≡ overtakes turns)
unfolding run turn serve_turn is_over
stop_overtaken serving [] r h over = contradiction (ground (arith, h, over))
stop_overtaken serving (server ∷ []) r h over = contradiction (ground (arith, h, over))
stop_overtaken serving (server ∷ server ∷ cs) r h over = serve_before serving cs r h over
stop_overtaken serving (server ∷ stopper ∷ cs) r h over = overlapped serving cs r h over
stop_overtaken serving (stopper ∷ cs) r h over = stop_before serving cs r h over
