-- ===== src/Matcher/Results.antt =====
-- internal/core/matcher/matcher.go: what `Match` returns, and that it always returns something.
use open_delo.Prelude.{
  ◌≤◌, ◌<◌, String, ◌≡◌, ◌≢◌, refl, subst, ◌⊎◌, inl, inr, true, false, ◌==◌, eq_iff, some, List, [],
  ◌∷◌, ◌++◌, take, length, find-mem, Memᴰ, All, arith, Option-cases, All-mem, All-×, All-self,
}
use open_delo.Platform.AppError.{Result, ok, err, Result-cases, internal}
use open_delo.Matcher.Identity.{Identity, zero_identity, MatchLevel}
use open_delo.Matcher.Matching.{
  Request, Inputs, MatchResult, available_identities, identity_ids, select_identities, hit,
  selected, manual_or_ambiguous, settle_level, walk_levels, levels, match_identity,
}
use open_delo.Matcher.Selection.{
  select_identities-All, select_identities-own, Fits, available_identities-ok,
  available_identities-total,
}

-- A level that names how the match was made.
abbrev pub IsNamed : MatchLevel → Type 0
IsNamed (MatchLevel.other x) = ⊥
IsNamed _ = Unit

-- Either one identity with its level, or at least two candidates and nothing chosen.
module _ (P : Identity → Type 0) where
  abbrev pub Chosen : MatchResult → Type 0
  Chosen r = (r.ambiguous ≡ false) × P r.identity × IsNamed r.level × (r.candidates ≡ [])

  abbrev pub Asked : MatchResult → Type 0
  Asked r =
      (r.ambiguous ≡ true)
      × (2 ≤ length r.candidates)
      × All P r.candidates
      × (r.identity ≡ zero_identity)
      × (r.level ≡ MatchLevel.other "")

  abbrev pub Conclusive : MatchResult → Type 0
  Conclusive r = Chosen r ⊎ Asked r

  hit-Chosen : (i : Identity) (l : MatchLevel) → P i → IsNamed l → Chosen (hit i l)
  unfolding hit
  hit-Chosen i l p n = (refl, p, n, refl)

  selected-All :
      (cs : List Identity) (selection : String) (i : Identity)
      → All P cs
      → selected cs selection ≡ some i
      → P i
  unfolding selected
  selected-All cs selection i ps h =
      All-mem P cs i ps (find-mem (λ c. c.id == selection) cs i (ground arith)).0

  manual_or_ambiguous-Conclusive :
      (cs : List Identity) (selection : String)
      → 2 ≤ length cs
      → All P cs
      → Conclusive (manual_or_ambiguous cs selection)
  unfolding manual_or_ambiguous
  manual_or_ambiguous-Conclusive cs selection two ps = elim (Option-cases (selected cs selection)) [
    | inl e ↦ rw (e, manual_or_ambiguous) (inr (refl, two, ps, refl, refl))
    | inr (i, e) ↦
        rw (e, manual_or_ambiguous) (inl (refl, selected-All cs selection i ps e, tt, refl))
  ]

  settle_level-Conclusive :
      (is : List Identity) (l : MatchLevel) (selection : String) (later : Result MatchResult)
      (r : MatchResult)
      → All P is
      → IsNamed l
      → ((r' : MatchResult) → later ≡ ok r' → Conclusive r')
      → settle_level is l selection later ≡ ok r
      → Conclusive r
  unfolding settle_level
  settle_level-Conclusive [] l selection later r ps n rest h = rest r h
  settle_level-Conclusive (i ∷ []) l selection later r ps n rest h =
      let same : hit i l ≡ r = ground arith in subst Conclusive same (inl (hit-Chosen i l ps.0 n))
  settle_level-Conclusive (i ∷ j ∷ more) l selection later r ps n rest h =
      let same : manual_or_ambiguous (i ∷ j ∷ more) selection ≡ r = ground arith in
      subst Conclusive same
        (manual_or_ambiguous-Conclusive (i ∷ j ∷ more) selection (omega arith) ps)

  walk_levels-Conclusive :
      (available : List Identity) (selection : String) (ls : List (MatchLevel × List String))
      (r : MatchResult)
      → All P available
      → All (λ l. IsNamed l.0) ls
      → walk_levels available selection ls ≡ ok r
      → Conclusive r
  unfolding walk_levels
  walk_levels-Conclusive available selection [] r ps ns h = cc
  walk_levels-Conclusive available selection ((l, ids) ∷ ls) r ps ns h =
      settle_level-Conclusive (select_identities ids available) l selection
        (walk_levels available selection ls) r (select_identities-All P ids available ps) ns.0
        (λ r' e. walk_levels-Conclusive available selection ls r' ps ns.1 e) h

-- What a successful run has gone through.
match_identity-ok :
    (q : Request) (inputs : Inputs) (r : MatchResult)
    → match_identity q inputs ≡ ok r
    → All (Fits q.service) inputs.identities
      × (walk_levels inputs.identities inputs.manual_selection (levels q inputs inputs.identities)
          ≡ ok r)
unfolding match_identity
match_identity-ok q inputs r h =
    elim (Result-cases (available_identities q.service inputs.identities)) [
      | inl (available, e) ↦
          let (same, fits) = available_identities-ok q.service inputs.identities available e in
          (fits, ground (arith, e, same))
      | inr (c, e) ↦ ground (arith, e)
    ]

-- A successful match concludes one of two ways, each identity in it being a loaded one of the
-- service: one identity with a named level; or, with nothing chosen, two candidates or more.
pub match_identity-Conclusive :
    (q : Request) (inputs : Inputs) (r : MatchResult)
    → match_identity q inputs ≡ ok r
    → Conclusive (λ i. Memᴰ i inputs.identities × Fits q.service i) r
match_identity-Conclusive q inputs r h =
    let (fits, walked) = match_identity-ok q inputs r h in
    walk_levels-Conclusive _ inputs.identities inputs.manual_selection
      (levels q inputs inputs.identities) r
      (All-× _ _ inputs.identities (All-self inputs.identities) fits)
      (unfold levels in (tt, (tt, (tt, (tt, tt))))) walked

settle_level_total :
    (is : List Identity) (l : MatchLevel) (selection : String) (later : Result MatchResult)
    → (0 < length is) ⊎ ((r : MatchResult) × (later ≡ ok r))
    → (r : MatchResult) × (settle_level is l selection later ≡ ok r)
unfolding settle_level
settle_level_total [] l selection later (inl h) = absurd (omega arith)
settle_level_total [] l selection later (inr h) = h
settle_level_total (i ∷ []) l selection later h = (hit i l, refl)
settle_level_total (i ∷ j ∷ more) l selection later h =
    (manual_or_ambiguous (i ∷ j ∷ more) selection, refl)

-- A last level that finds something makes the walk end well.
walk_levels_total :
    (available : List Identity) (selection : String) (ls : List (MatchLevel × List String))
    (l : MatchLevel) (ids : List String)
    → 0 < length (select_identities ids available)
    → (r : MatchResult) × (walk_levels available selection (ls ++ (l, ids) ∷ []) ≡ ok r)
unfolding walk_levels
walk_levels_total available selection [] l ids h =
    settle_level_total (select_identities ids available) l selection (err internal) (inl h)
walk_levels_total available selection ((l', ids') ∷ ls) l ids h =
    settle_level_total (select_identities ids' available) l' selection
      (walk_levels available selection (ls ++ (l, ids) ∷ []))
      (inr (walk_levels_total available selection ls l ids h))

-- The last level is that of the sole identity, which finds one.
levels_total :
    (q : Request) (inputs : Inputs) (i : Identity) (is : List Identity)
    → (r : MatchResult) × (walk_levels (i ∷ is) inputs.manual_selection (levels q inputs (i ∷ is))
        ≡ ok r)
unfolding levels
levels_total q inputs i is =
    walk_levels_total (i ∷ is) inputs.manual_selection (take 3 (levels q inputs (i ∷ is)))
      MatchLevel.sole_identity (identity_ids (i ∷ is)) (select_identities-own i is)

match_identity_from :
    (q : Request) (inputs : Inputs) (is : List Identity)
    → inputs.identities ≡ is
    → q.service ≢ ""
    → is ≢ []
    → All (Fits q.service) is
    → (r : MatchResult) × (match_identity q inputs ≡ ok r)
unfolding match_identity
match_identity_from q inputs [] e named present fits = absurd (present refl)
match_identity_from q inputs (i ∷ is) e named present fits =
    let (r, walked) = levels_total q inputs i is in
    (
      r,
      ground (
        arith,
        walked,
        e,
        eq_iff q.service "",
        available_identities-total q.service (i ∷ is) fits,
      ),
    )

-- Where the request names a service and the loaded identities, one at least, all belong to it and
-- have a key, the match succeeds.
pub match_identity_total :
    (q : Request) (inputs : Inputs)
    → q.service ≢ ""
    → inputs.identities ≢ []
    → All (Fits q.service) inputs.identities
    → (r : MatchResult) × (match_identity q inputs ≡ ok r)
match_identity_total q inputs named present fits =
    match_identity_from q inputs inputs.identities refl named present fits
