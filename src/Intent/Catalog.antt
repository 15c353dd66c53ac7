-- ===== src/Intent/Catalog.antt =====
-- internal/core/intent/capability.go: what the adapters offer. The texts of the declarations are
-- JSON; `Codec` stands for the functions of Go's library that this package calls.
use Prim.Native.Char.{code}
use mathlib.Core.Option
use open_delo.Prelude.{
  any, keep, find, ℕ, String, Bool, true, false, ◌&&◌, ◌||◌, not, Option, none, some, List, [], ◌∷◌,
  ◌++◌, ◌==◌, if◌then◌else◌,
}
use open_delo.Prelude.Text.{codes, same_number, starts}
use open_delo.Prelude.Sorting.{◌+++◌}
use open_delo.Platform.AppError.{
  invalid_configuration, capability_not_offered, Result, err, ok, ensure, ◌>>=◌, ◌>>◌,
}
use open_delo.Risk.Level.{RiskLabel}
use open_delo.Risk.Factors.{valid_label}
use open_delo.Scope.Dimensions.{is_empty, filled}

-- A nil pointer is `none`.
pub record Capability : Type 0 where
  pub tool : String
  pub operation : String
  pub method : String
  pub path : String
  pub risk : RiskLabel
  pub idempotent : Option Bool
  pub reversible : Option Bool
  pub sensitive_data : Option Bool
  pub resource_keys : List String

-- A member of a JSON object: a text, or a value of another kind.
pub data Field : Type 0 where
  text : String → Field
  no_text : Field

-- `json.Unmarshal` of the declared capabilities and of a resource, `none` where it returns an error;
-- `strings.TrimSpace(s) == ""`, `strings.ToUpper` and `path.Match`, whose `none` is its error.
pub record Codec : Type 0 where
  pub capabilities : String → Option (List Capability)
  pub fields : String → Option (List (String × Field))
  pub is_blank : String → Bool
  pub to_upper : String → String
  pub glob : String → String → Option Bool

-- internal/adapter/registry/declaration.go: what this package reads of a declaration.
pub record Declaration : Type 0 where
  pub service : String
  pub capabilities : String
  pub enabled : Bool

pub record Entry : Type 0 where
  pub service : String
  pub capability : Capability
  pub segments : List String

-- The two maps have no key twice.
pub record Catalog : Type 0 where
  pub by_tool : List (String × Entry)
  pub by_operation : List (String × Entry)
  pub by_route : List Entry

abbrev pub empty_catalog : Catalog
empty_catalog = record { by_tool = []; by_operation = []; by_route = [] }

-- `append` of a piece to the segments, unless it is empty.
abbrev pub add_piece : String → List String → List String
add_piece piece segments = if filled piece then piece ∷ segments else segments

-- The piece before the first slash, and the segments after it.
unfoldable pub pieces : String → String × List String
pieces String.[] = ("", [])
pieces (String.◌∷◌ c s) =
    let (piece, segments) = pieces s in
    if same_number (code c) b'/'
    then ("", add_piece piece segments)
    else (String.◌∷◌ c piece, segments)

unfoldable pub split_path : String → List String
unfolding pieces
split_path path = let (piece, segments) = pieces path in add_piece piece segments

abbrev pub ends_with : ℕ → List ℕ → Bool
ends_with c [] = false
ends_with c (d ∷ []) = same_number d c
ends_with c (d ∷ e ∷ s) = ends_with c (e ∷ s)

-- `{name}`
abbrev pub is_hole : String → Bool
is_hole segment = starts (codes segment) (b'{' ∷ []) && ends_with b'}' (codes segment)

unfoldable pub match_segments : List String → List String → Bool
match_segments [] [] = true
match_segments (t ∷ template) (a ∷ actual) = (is_hole t || t == a) && match_segments template actual
match_segments _ _ = false

abbrev pub is_declared : Option Bool → Bool
is_declared none = false
is_declared (some b) = true

-- `Capability.validate`: the switch, then the loop over the keys.
unfoldable pub validate : Capability → Result (Unit {0})
unfolding valid_label
validate c = do
  ensure (filled c.tool) invalid_configuration
  ensure (filled c.operation) invalid_configuration
  ensure (filled c.method) invalid_configuration
  ensure (filled c.path) invalid_configuration
  ensure (valid_label c.risk) invalid_configuration
  ensure (is_declared c.idempotent) invalid_configuration
  ensure (is_declared c.reversible) invalid_configuration
  ensure (is_declared c.sensitive_data) invalid_configuration
  ensure (not (is_empty c.resource_keys)) invalid_configuration
  ensure (not (any (λ key. not (filled key)) c.resource_keys)) invalid_configuration

unfoldable pub validate_all : List Capability → Result (Unit {0})
validate_all [] = ok tt
validate_all (c ∷ cs) = validate c >> validate_all cs

-- Separated by NUL.
unfoldable pub operation_key : String → String → String
operation_key service operation = service +++ "\0" +++ operation

unfoldable pub look_up : String → List (String × Entry) → Option Entry
look_up key entries = Option.map (λ e. e.1) (find (λ e. e.0 == key) entries)

abbrev pub present {ℓ} : {A : Type ℓ} → Option A → Bool
present none = false
present (some a) = true

unfoldable pub entry_of : String → Capability → Entry
unfolding split_path
entry_of service c = record { service = service; capability = c; segments = split_path c.path }

unfoldable pub add_entry : Entry → Catalog → Result Catalog
unfolding operation_key look_up
add_entry e catalog = do
  ensure (not (present (look_up e.capability.tool catalog.by_tool))) invalid_configuration
  ensure
      (not
        (present (look_up (operation_key e.service e.capability.operation) catalog.by_operation)))
      invalid_configuration
  ok (record {
    by_tool = (e.capability.tool, e) ∷ catalog.by_tool;
    by_operation = (operation_key e.service e.capability.operation, e) ∷ catalog.by_operation;
    by_route = catalog.by_route ++ e ∷ [];
  })

unfoldable pub add_capabilities : String → List Capability → Catalog → Result Catalog
unfolding entry_of
add_capabilities service [] catalog = ok catalog
add_capabilities service (c ∷ cs) catalog = do
  larger ← add_entry (entry_of service c) catalog
  add_capabilities service cs larger

unfoldable pub lookup_tool : Catalog → String → Option Entry
lookup_tool catalog tool = look_up tool catalog.by_tool

unfoldable pub tool_for : Catalog → String → String → Option String
unfolding look_up operation_key
tool_for catalog service operation =
    Option.map (λ e. e.capability.tool)
      (look_up (operation_key service operation) catalog.by_operation)

-- None, one or several templates fit.
unfoldable pub only_one : List Entry → Result (Option Entry)
only_one [] = ok none
only_one (e ∷ []) = ok (some e)
only_one (e ∷ f ∷ es) = err capability_not_offered

module _ (codec : Codec) where
  unfoldable pub parse_capabilities : Declaration → Result (List Capability)
  unfolding validate_all
  parse_capabilities d = elim (codec.capabilities d.capabilities) [
    | none ↦ err invalid_configuration
    | some cs ↦ do ensure (not (is_empty cs)) invalid_configuration; validate_all cs; ok cs
  ]

  unfoldable pub add_declarations : List Declaration → Catalog → Result Catalog
  add_declarations [] catalog = ok catalog
  add_declarations (d ∷ ds) catalog = elim d.enabled [
    | false ↦ add_declarations ds catalog
    | true ↦ do
      cs ← parse_capabilities d
      larger ← add_capabilities d.service cs catalog
      add_declarations ds larger
  ]

  unfoldable pub new_catalog : List Declaration → Result Catalog
  new_catalog ds = add_declarations ds empty_catalog

  unfoldable pub fitting : Catalog → String → String → List Entry
  unfolding match_segments split_path
  fitting catalog method path =
      keep
        (λ e.
          (e.capability.method == codec.to_upper method)
          && match_segments e.segments (split_path path))
        catalog.by_route

  unfoldable pub lookup_route : Catalog → String → String → Result (Option Entry)
  unfolding only_one
  lookup_route catalog method path = only_one (fitting catalog method path)
