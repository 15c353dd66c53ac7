-- ===== src/Matcher/Priority.antt =====
-- internal/core/matcher/matcher.go: a weaker source never overrides a stronger one.
use open_delo.Prelude.{◌<◌, String, ◌≡◌, refl, List, [], ◌∷◌, inl, inr, length, arith}
use open_delo.Platform.AppError.{Result, err, internal, Result-cases}
use open_delo.Matcher.Identity.{
  Identity, Binding, MatchLevel, workspace_binding, resource_binding, trust_memory, sole_identity,
}
use open_delo.Matcher.Matching.{
  Request, Inputs, MatchResult, select_identities, settle_level, workspace_candidates,
  resource_candidates, match_identity, available_identities, identity_ids,
}
use open_delo.Matcher.Selection.{available_identities-ok}

settle_level_ignores :
    (is : List Identity) (l : MatchLevel) (selection : String) (x y : Result MatchResult)
    → 0 < length is
    → settle_level is l selection x ≡ settle_level is l selection y
unfolding settle_level
settle_level_ignores [] l selection x y h = absurd (omega arith)
settle_level_ignores (i ∷ []) l selection x y h = refl
settle_level_ignores (i ∷ j ∷ more) l selection x y h = refl

-- Where the bindings of the request's project name a loaded identity, neither the resource
-- bindings nor the memories change the result, the errors included.
pub match_identity-workspace_first :
    (q : Request) (inputs : Inputs) (bindings : List Binding) (memories : List String)
    → 0
      < length
          (select_identities (workspace_candidates q inputs.workspace_bindings) inputs.identities)
    → match_identity q
        (record inputs { resource_bindings = bindings; memory_identity_ids = memories })
      ≡ match_identity q inputs
unfolding match_identity
match_identity-workspace_first q inputs bindings memories h =
    elim (Result-cases (available_identities q.service inputs.identities)) [
      | inl (available, e) ↦
          let (same, fits) = available_identities-ok q.service inputs.identities available e in
          ground (
            arith,
            e,
            same,
            settle_level_ignores
                (select_identities (workspace_candidates q inputs.workspace_bindings)
                  inputs.identities)
                workspace_binding inputs.manual_selection (later bindings memories)
                (later inputs.resource_bindings inputs.memory_identity_ids) h,
          )
      | inr (c, e) ↦ ground (arith, e)
    ]
  where
    later : List Binding → List String → Result MatchResult
    later bs ms =
        settle_level (select_identities (resource_candidates q bs) inputs.identities)
          resource_binding inputs.manual_selection
          (settle_level (select_identities ms inputs.identities) trust_memory
            inputs.manual_selection
            (settle_level (select_identities (identity_ids inputs.identities) inputs.identities)
              sole_identity inputs.manual_selection (err internal)))
