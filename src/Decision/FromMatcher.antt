-- ===== src/Decision/FromMatcher.antt =====
-- internal/core/matcher feeds internal/core/decision: what the matcher returns never trips the
-- engine's check of the match.
use text.Mathlib.TextPositions.{eq_refl}
use open_delo.Prelude.{◌≡◌, ◌≢◌, refl, ap, ◌==◌, inl, inr, true, false, arith, eq_iff}
use open_delo.Platform.AppError.{ok}
use open_delo.Matcher.Identity.{
  Identity, MatchLevel, workspace_binding, resource_binding, trust_memory, sole_identity,
}
use open_delo.Matcher.Matching.{Request, Inputs, MatchResult, match_identity}
use open_delo.Matcher.Results.{IsNamed, Conclusive, match_identity-Conclusive}
use open_delo.Decision.FailClosed.{unnamed_level, resolvable_match}

IsNamed-unnamed_level : (l : MatchLevel) → IsNamed l → unnamed_level l ≡ false
unfolding unnamed_level
IsNamed-unnamed_level workspace_binding n = refl
IsNamed-unnamed_level resource_binding n = refl
IsNamed-unnamed_level trust_memory n = refl
IsNamed-unnamed_level sole_identity n = refl
IsNamed-unnamed_level MatchLevel.manual_selection n = refl
IsNamed-unnamed_level (MatchLevel.other x) n = absurd n

unnamed_empty : unnamed_level (MatchLevel.other "") ≡ true
unfolding unnamed_level
unnamed_empty = refl

Conclusive-resolvable_match :
    (P : Identity → Type 0) (r : MatchResult)
    → ((i : Identity) → P i → i.id ≢ "")
    → Conclusive P r
    → resolvable_match r ≡ true
unfolding resolvable_match
Conclusive-resolvable_match P r f (inl (unambiguous, p, named, _)) =
    ground (arith, IsNamed-unnamed_level r.level named, eq_iff r.identity.id "", f r.identity p)
Conclusive-resolvable_match P r f (inr (ambiguous, two, _, nobody, unnamed)) = ground (
  arith,
  ap (λ (x : Identity). x.id == "") nobody,
  ap unnamed_level unnamed,
  unnamed_empty,
  eq_refl "",
)

-- Whatever `Match` returns without an error passes the engine's `resolvableMatch`.
pub match_identity-resolvable_match :
    (q : Request) (inputs : Inputs) (r : MatchResult)
    → match_identity q inputs ≡ ok r
    → resolvable_match r ≡ true
match_identity-resolvable_match q inputs r h =
    Conclusive-resolvable_match _ r (λ i p. p.1.1) (match_identity-Conclusive q inputs r h)
