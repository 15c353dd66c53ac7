-- ===== src/Examples/Gateways.antt =====
-- Runs of internal/core/gateway on concrete inputs.
use open_delo.Prelude.{false, some, List, [], ◌∷◌, ◌≡◌, refl, true, false}
use open_delo.Gateway.Availability.{new, serve, is_serving}
use open_delo.Gateway.Schedules.{
  Race, Caller, server, stopper, served, stopped_off, serve_turn, stop_turn, turn, run, start,
  is_over, overtakes, stop_overtaken,
}

started : (serve new).1 ≡ true
unfolding serve
started = refl

abbrev lost : List Caller
lost = server ∷ stopper ∷ stopper ∷ server ∷ []

-- What is left of a `Stop` that ran between the two accesses of a `Serve`.
abbrev left : Race
left = record {
  flags = record { serving = true; stopped = true };
  serve_at = served true;
  stop_at = stopped_off;
}

after_lost : run lost (start false) ≡ some left
unfolding run turn serve_turn stop_turn
after_lost = refl

left_over : is_over left ≡ true
unfolding is_over
left_over = refl

stop_overtaken_example : (left.flags.stopped ≡ true) × (is_serving left.flags ≡ overtakes lost)
stop_overtaken_example = stop_overtaken false lost left after_lost left_over

-- It serves.
left_serving : overtakes lost ≡ true
unfolding overtakes
left_serving = refl
