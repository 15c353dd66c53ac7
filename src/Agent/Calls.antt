-- ===== src/Agent/Calls.antt =====
-- internal/core/agentauth/service.go: sequences of calls. The statements of two calls do not overlap.
use open_delo.Prelude.{ℕ, String, List, [], ◌∷◌}
use open_delo.Prelude.Int.{ℤ}
use open_delo.Agent.Store.{Store}
use open_delo.Agent.Registration.{Registration, Paths}
use open_delo.Agent.Register.{Crypto, Draws, register}
use open_delo.Agent.Service.{Presented, authenticate, confirm_trust, disconnect}

-- A call of the service, with its arguments and what the clock, the randomness and the generator of
-- keys return to it.
pub data Call : Type 0 where
  register_call : Draws → Registration → Call
  authenticate_call : ℕ → ℕ → String → Presented → Call
  confirm_call : ℕ → String → Call
  disconnect_call : ℕ → String → Call

module _ (paths : Paths) (crypto : Crypto) (ttl : ℤ) where
  unfoldable pub run : Call → Store → Store
  run (register_call draws q) s = (register paths crypto ttl draws q s).0
  run (authenticate_call now touched key presented) s =
      (authenticate crypto now touched key presented s).0
  run (confirm_call now id) s = (confirm_trust now id s).0
  run (disconnect_call now id) s = (disconnect now id s).0

  unfoldable pub run_all : List Call → Store → Store
  run_all [] s = s
  run_all (c ∷ cs) s = run_all cs (run c s)
