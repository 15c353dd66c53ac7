-- ===== src/Examples/Matches.antt =====
-- Runs of internal/core/matcher on concrete inputs.
use open_delo.Prelude.{length, ◌<◌, String, ◌≡◌, refl, ◌≢◌, false, [], arith, ◌==◌, eq_iff, length}
use open_delo.Platform.AppError.{ok}
use open_delo.Matcher.Matching.{
  Inputs, MatchResult, is_needs_review, hit, available_identities, is_workspace,
  workspace_candidates, by_id, pick, insert_sorted, sort_by_id, select_identities, settle_level,
  walk_levels, levels, match_identity,
}
use open_delo.Matcher.Results.{match_identity_total}
use open_delo.Examples.Samples.{read_request, bound_inputs, work_match}

-- The project's binding names one of the two identities.
pub read_matched : match_identity read_request bound_inputs ≡ ok work_match
unfolding match_identity available_identities workspace_candidates is_workspace select_identities
    pick by_id sort_by_id insert_sorted walk_levels levels settle_level hit is_needs_review
read_matched = refl

named : (a : String) → (a == "") ≡ false → a ≢ ""
named a h = ground (arith, eq_iff a "")

-- No binding, no memory: two identities to choose from.
abbrev unbound_inputs : Inputs
unbound_inputs = record bound_inputs { workspace_bindings = [] }

match_identity_total_example :
    (r : MatchResult) × (match_identity read_request unbound_inputs ≡ ok r)
match_identity_total_example =
    match_identity_total read_request unbound_inputs (named "calendar" refl) (λ e. ground arith)
      ((refl, named "id-work" refl), ((refl, named "id-home" refl), tt))

one_bound :
    0
    < length (
        select_identities
          (workspace_candidates read_request bound_inputs.workspace_bindings)
          bound_inputs.identities)
unfolding workspace_candidates is_workspace select_identities pick by_id sort_by_id insert_sorted
one_bound = omega arith
