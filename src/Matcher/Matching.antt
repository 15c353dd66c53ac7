-- ===== src/Matcher/Matching.antt =====
-- internal/core/matcher/matcher.go.
use Prim.Native.String.{compare}
use text.Mathlib.Text.{is_lt}
use open_delo.Prelude.{
  String, Bool, true, false, ◌&&◌, ◌==◌, Option, none, some, List, [], ◌∷◌, map, keep, any, find,
  if◌then◌else◌,
}
use open_delo.Platform.AppError.{
  Result, ok, err, ensure, ◌>>=◌, ◌>>◌, invalid_request, internal, credential_not_authorized,
}
use open_delo.Matcher.Identity.{
  Identity, IdentityStatus, zero_identity, Binding, BindingKind, MatchLevel,
}

pub record Request : Type 0 where
  pub service : String
  pub workspace_id : String
  pub resource_key : String

pub record Inputs : Type 0 where
  pub workspace_bindings : List Binding
  pub resource_bindings : List Binding
  pub memory_identity_ids : List String
  pub identities : List Identity
  pub manual_selection : String

pub record MatchResult : Type 0 where
  pub identity : Identity
  pub level : MatchLevel
  pub ambiguous : Bool
  pub candidates : List Identity
  pub needs_review : Bool

-- `identity.Status == StatusNeedsReview`
unfoldable pub is_needs_review : IdentityStatus → Bool
is_needs_review IdentityStatus.needs_review = true
is_needs_review _ = false

unfoldable pub hit : Identity → MatchLevel → MatchResult
unfolding is_needs_review
hit i l = record {
  identity = i;
  level = l;
  ambiguous = false;
  candidates = [];
  needs_review = is_needs_review i.status;
}

unfoldable pub ask_user : List Identity → MatchResult
ask_user candidates = record {
  identity = zero_identity;
  level = MatchLevel.other "";
  ambiguous = true;
  candidates = candidates;
  needs_review = false;
}

-- The first candidate that the user has selected; `none` where nothing was selected.
unfoldable pub selected : List Identity → String → Option Identity
selected candidates selection =
    if selection == "" then none else find (λ c. c.id == selection) candidates

unfoldable pub manual_or_ambiguous : List Identity → String → MatchResult
unfolding selected hit ask_user
manual_or_ambiguous candidates selection = elim (selected candidates selection) [
  | some c ↦ hit c MatchLevel.manual_selection
  | none ↦ ask_user candidates
]

-- The checks of the loop come in its order; both are `internal`.
unfoldable pub available_identities : String → List Identity → Result (List Identity)
available_identities service [] = ok []
available_identities service (i ∷ is) = do
  ensure (i.service == service) internal
  ensure (if i.id == "" then false else true) internal
  rest ← available_identities service is
  ok (i ∷ rest)

unfoldable pub is_workspace : BindingKind → Bool
is_workspace BindingKind.workspace = true
is_workspace _ = false

unfoldable pub is_resource : BindingKind → Bool
is_resource BindingKind.resource = true
is_resource _ = false

unfoldable pub workspace_candidates : Request → List Binding → List String
unfolding is_workspace
workspace_candidates r bindings =
    if r.workspace_id == ""
    then []
    else map (λ b. b.identity_id)
        (keep
          (λ b. is_workspace b.kind && b.service == r.service && b.workspace_id == r.workspace_id)
          bindings)

unfoldable pub resource_candidates : Request → List Binding → List String
unfolding is_resource
resource_candidates r bindings =
    if r.resource_key == ""
    then []
    else map (λ b. b.identity_id)
        (keep
          (λ b. is_resource b.kind && b.service == r.service && b.resource_key == r.resource_key)
          bindings)

unfoldable pub identity_ids : List Identity → List String
identity_ids is = map (λ i. i.id) is

-- The map `byID`: of two identities with one key the later stays.
unfoldable pub by_id : List Identity → String → Option Identity
by_id [] id = none
by_id (i ∷ is) id = elim (by_id is id) [
  | some j ↦ some j
  | none ↦ if i.id == id then some i else none
]

-- One round of the loop of `selectIdentities`, before what the later rounds give.
unfoldable pub pick : List Identity → List String → List String → List Identity
pick available seen [] = []
pick available seen (id ∷ ids) = elim (by_id available id) [
  | none ↦ pick available seen ids
  | some i ↦ elim (any (λ s. s == id) seen) [
    | true ↦ pick available seen ids
    | false ↦ i ∷ pick available (id ∷ seen) ids
  ]
]

-- Go compares the bytes of two texts, which is the order of their code points.
unfoldable pub before : Identity → Identity → Bool
before i j = is_lt (compare i.id j.id)

unfoldable pub insert_sorted : Identity → List Identity → List Identity
unfolding before
insert_sorted i [] = i ∷ []
insert_sorted i (j ∷ js) = if before j i then j ∷ insert_sorted i js else i ∷ j ∷ js

-- `sort.Slice` by key; the keys are distinct, so every sort gives this list.
unfoldable pub sort_by_id : List Identity → List Identity
unfolding insert_sorted
sort_by_id [] = []
sort_by_id (i ∷ is) = insert_sorted i (sort_by_id is)

unfoldable pub select_identities : List String → List Identity → List Identity
unfolding pick sort_by_id
select_identities ids available = sort_by_id (pick available [] ids)

-- What one level concludes; `later` is what the later levels would.
unfoldable pub settle_level :
    List Identity → MatchLevel → String → Result MatchResult → Result MatchResult
unfolding hit manual_or_ambiguous
settle_level [] level selection later = later
settle_level (i ∷ []) level selection later = ok (hit i level)
settle_level (i ∷ j ∷ more) level selection later =
    ok (manual_or_ambiguous (i ∷ j ∷ more) selection)

unfoldable pub walk_levels :
    List Identity → String → List (MatchLevel × List String) → Result MatchResult
unfolding settle_level select_identities
walk_levels available selection [] = err internal
walk_levels available selection ((level, ids) ∷ rest) =
    settle_level (select_identities ids available) level selection
      (walk_levels available selection rest)

unfoldable pub levels : Request → Inputs → List Identity → List (MatchLevel × List String)
unfolding workspace_candidates resource_candidates identity_ids
levels r inputs available =
    (MatchLevel.workspace_binding, workspace_candidates r inputs.workspace_bindings)
    ∷ (MatchLevel.resource_binding, resource_candidates r inputs.resource_bindings)
    ∷ (MatchLevel.trust_memory, inputs.memory_identity_ids)
    ∷ (MatchLevel.sole_identity, identity_ids available)
    ∷ []

abbrev pub is_nil {ℓ} : {A : Type ℓ} → List A → Bool
is_nil [] = true
is_nil (x ∷ xs) = false

unfoldable pub match_identity : Request → Inputs → Result MatchResult
unfolding available_identities walk_levels levels
match_identity r inputs = do
  ensure (if r.service == "" then false else true) invalid_request
  available ← available_identities r.service inputs.identities
  ensure (if is_nil available then false else true) credential_not_authorized
  walk_levels available inputs.manual_selection (levels r inputs available)
