-- ===== src/Intent/Resolver.antt =====
-- internal/core/intent/resolver.go: from a call to an intent.
use mathlib.Core.Option
use open_delo.Prelude.{
  any, keep, find, String, Bool, true, false, ◌&&◌, ◌||◌, not, Option, none, some, List, [], ◌∷◌,
  map, ◌==◌, if◌then◌else◌,
}
use open_delo.Prelude.Sorting.{sort_strings}
use open_delo.Platform.AppError.{
  invalid_request, internal, capability_not_offered, Result, err, ok, ◌>>=◌, ◌>>◌,
}
use open_delo.Matcher.Identity.{Environment, production, non_production}
use open_delo.Scope.Dimensions.{Resource, filled, mentions_wild}
use open_delo.Intent.Structured.{Intent, validate, resource_key_of}
use open_delo.Intent.Catalog.{
  Codec, Field, text, no_text, Capability, Entry, Catalog, lookup_tool, lookup_route,
}

pub record Call : Type 0 where
  pub tool : String
  pub method : String
  pub path : String
  pub resource : String
  pub desired_change : String
  pub identity_environment : Environment

-- `Resolver`: the patterns that name an environment.
pub record Patterns : Type 0 where
  pub production : List String
  pub non_production : List String

-- `fields[key]`
unfoldable pub field_of : String → List (String × Field) → Option Field
field_of key fields = Option.map (λ f. f.1) (find (λ f. f.0 == key) fields)

-- One round of the loop over the keys: a text that is not empty.
unfoldable pub field_text : String → List (String × Field) → Result String
unfolding field_of
field_text key fields = elim (field_of key fields) [
  | none ↦ err invalid_request
  | some no_text ↦ err invalid_request
  | some (text s) ↦ if filled s then ok s else err invalid_request
]

-- Writing a key of a map.
unfoldable pub put_field : String → String → Resource → Resource
put_field key value [] = (key, value) ∷ []
put_field key value ((k, v) ∷ r) =
    let rest = put_field key value r in if k == key then (key, value) ∷ r else (k, v) ∷ rest

-- The loop over the keys: the map so far, and whether a value was ambiguous.
unfoldable pub collect :
    List String → List (String × Field) → Resource → Bool → Result (Resource × Bool)
unfolding put_field mentions_wild
collect [] fields resource ambiguous = ok (resource, ambiguous)
collect (key ∷ keys) fields resource ambiguous = do
  value ← field_text key fields
  collect keys fields (put_field key value resource) (ambiguous || mentions_wild value)

unfoldable pub ignored_keys : List String → List (String × Field) → List String
ignored_keys keys fields = map (λ f. f.0) (keep (λ f. not (any (λ key. key == f.0) keys)) fields)

pub record Extracted : Type 0 where
  pub resource : Resource
  pub ignored : List String
  pub ambiguous : Bool

-- `*pointer`, which panics on nil; `NewCatalog` lets no such capability in.
abbrev pub pointed : Option Bool → Result Bool
pointed none = err internal
pointed (some b) = ok b

-- Whether the operation is reversible, sensitive and idempotent.
unfoldable pub flags : Capability → Result (Bool × Bool × Bool)
flags c = do
  reversible ← pointed c.reversible
  sensitive ← pointed c.sensitive_data
  idempotent ← pointed c.idempotent
  ok (reversible, sensitive, idempotent)

module _ (codec : Codec) where
  unfoldable pub extract_resource : String → List String → Result Extracted
  unfolding ignored_keys sort_strings
  extract_resource raw keys =
      if codec.is_blank raw then err invalid_request else elim (codec.fields raw) [
        | none ↦ err invalid_request
        | some fields ↦ do
          found ← collect keys fields [] false
          ok (record {
            resource = found.0;
            ignored = sort_strings (ignored_keys keys fields);
            ambiguous = found.1;
          })
      ]

  -- An error of the matching counts as no match.
  abbrev pub glob_hits : String → String → Bool
  glob_hits pattern value = elim (codec.glob pattern value) [ none ↦ false | some hit ↦ hit ]

  unfoldable pub matches_any : List String → Resource → Bool
  matches_any patterns resource = any (λ p. any (λ e. glob_hits p e.1) resource) patterns

  unfoldable pub resolve_environment : Patterns → Environment → Resource → Environment × Bool
  resolve_environment patterns declared resource = elim declared [
    | Environment.production ↦ (production, false)
    | Environment.non_production ↦ (non_production, false)
    | Environment.other _ ↦
        if matches_any patterns.production resource
        then (production, false)
        else if matches_any patterns.non_production resource
        then (non_production, false)
        else (production, true)
  ]

  unfoldable pub lookup : Catalog → Call → Result Entry
  lookup catalog call =
      if filled call.tool
      then (elim (lookup_tool catalog call.tool) [
        | none ↦ err capability_not_offered
        | some e ↦ ok e
      ])
      else if not (filled call.method && filled call.path)
      then err invalid_request
      else do
        found ← lookup_route codec catalog call.method call.path
        elim found [ none ↦ err capability_not_offered | some e ↦ ok e ]

  unfoldable pub intent_of : Patterns → Call → Entry → Extracted → Bool × Bool × Bool → Intent
  unfolding resource_key_of
  intent_of patterns call e x (reversible, sensitive, idempotent) =
      let (environment, assumed) =
        resolve_environment patterns call.identity_environment x.resource in
      record {
        service = e.service;
        operation = e.capability.operation;
        resource = x.resource;
        resource_key = resource_key_of x.resource;
        ignored_fields = x.ignored;
        environment = environment;
        environment_assumed = assumed;
        desired_change = call.desired_change;
        reversible = reversible;
        sensitive_data = sensitive;
        idempotent = idempotent;
        risk_label = e.capability.risk;
        resource_ambiguous = x.ambiguous;
      }

  -- `Resolver.Resolve`; a nil catalog is `none`.
  unfoldable pub resolve : Patterns → Option Catalog → Call → Result Intent
  resolve patterns none call = err capability_not_offered
  resolve patterns (some catalog) call = do
    e ← lookup catalog call
    x ← extract_resource call.resource e.capability.resource_keys
    f ← flags e.capability
    validate (intent_of patterns call e x f)
    ok (intent_of patterns call e x f)
