-- ===== src/Intent/Panics.antt =====
-- internal/core/intent: the pointers of a capability are never nil where they are read.
use open_delo.Prelude.{
  All-mem, String, ◌≡◌, ◌≢◌, inl, inr, Bool, false, ◌||◌, some, List, [], ◌∷◌, arith, Option-cases,
}
use open_delo.Platform.AppError.{internal, err, ok, Result-cases}
use open_delo.Intent.Structured.{Intent, validate}
use open_delo.Intent.Catalog.{
  Codec, Field, Declaration, Capability, Entry, Catalog, only_one, fitting, new_catalog,
  lookup_route,
}
use open_delo.Scope.Dimensions.{Resource, mentions_wild}
use open_delo.Intent.Resolver.{
  Call, Patterns, field_text, put_field, collect, flags, extract_resource, lookup, intent_of,
  resolve,
}
use open_delo.Intent.Offered.{Declared, DeclaredEntry, WellDeclared, new_catalog-WellDeclared}
use open_delo.Intent.Results.{Offers, lookup-Offers}

only_one-quiet : (es : List Entry) → only_one es ≢ err internal
unfolding only_one
only_one-quiet [] h = ground (arith, h)
only_one-quiet (e ∷ []) h = ground (arith, h)
only_one-quiet (e ∷ f ∷ es) h = ground (arith, h)

field_text-quiet :
    (key : String) (fields : List (String × Field)) → field_text key fields ≢ err internal
unfolding field_text
field_text-quiet key fields h = ground (arith, h)

collect-quiet :
    (keys : List String) (fields : List (String × Field)) (r : Resource) (a : Bool)
    → collect keys fields r a ≢ err internal
unfolding collect
collect-quiet [] fields r a h = ground (arith, h)
collect-quiet (key ∷ keys) fields r a h = elim (Result-cases (field_text key fields)) [
  | inr (code, e) ↦ field_text-quiet key fields (ground (arith, e, h))
  | inl (value, e) ↦
      collect-quiet keys fields (put_field key value r) (a || mentions_wild value) (rw e at h)
]

validate-quiet : (i : Intent) → validate i ≢ err internal
unfolding validate
validate-quiet i h = ground (arith, h)

flags-Declared : (c : Capability) → Declared c → flags c ≢ err internal
unfolding flags
flags-Declared c d h = ground (arith, d.idempotent, d.reversible, d.sensitive_data, h)

module _ (codec : Codec) where
  lookup-quiet : (catalog : Catalog) (call : Call) → lookup codec catalog call ≢ err internal
  unfolding lookup lookup_route
  lookup-quiet catalog call h =
      ground (arith, h, only_one-quiet (fitting codec catalog call.method call.path))

  extract_resource-quiet :
      (raw : String) (keys : List String) → extract_resource codec raw keys ≢ err internal
  unfolding extract_resource
  extract_resource-quiet raw keys h = elim (Option-cases (codec.fields raw)) [
    | inl e ↦ ground (arith, e, h)
    | inr (fields, e) ↦ ground (arith, e, h, collect-quiet keys fields [] false)
  ]

  Offers-Declared :
      (catalog : Catalog) (call : Call) (e : Entry)
      → WellDeclared catalog
      → Offers codec catalog call e
      → DeclaredEntry e
  Offers-Declared catalog call e w (inl m) =
      All-mem (λ x. DeclaredEntry x.1) catalog.by_tool (call.tool, e) w.by_tool m
  Offers-Declared catalog call e w (inr (_, m, _, _, _)) =
      All-mem DeclaredEntry catalog.by_route e w.by_route m

  -- With a catalog that `NewCatalog` built, `Resolve` reads no nil pointer, whatever the call.
  pub resolve_no_panic :
      (ds : List Declaration) (catalog : Catalog) (patterns : Patterns) (call : Call)
      → new_catalog codec ds ≡ ok catalog
      → resolve codec patterns (some catalog) call ≢ err internal
  unfolding resolve
  resolve_no_panic ds catalog patterns call built h =
      let w = new_catalog-WellDeclared codec ds catalog built in
      elim (Result-cases (lookup codec catalog call)) [
        | inr (code, e) ↦ lookup-quiet catalog call (ground (arith, e, h))
        | inl (f, e) ↦
            let d = Offers-Declared catalog call f w (lookup-Offers codec catalog call f e) in
            elim (Result-cases (extract_resource codec call.resource f.capability.resource_keys)) [
              | inr (code, e') ↦
                  extract_resource-quiet call.resource f.capability.resource_keys
                    (ground (arith, e, e', h))
              | inl (x, e') ↦ elim (Result-cases (flags f.capability)) [
                | inr (code, e'') ↦ flags-Declared f.capability d (ground (arith, e, e', e'', h))
                | inl (b, e'') ↦
                    validate-quiet (intent_of codec patterns call f x b)
                      (ground (arith, e, e', e'', h))
              ]
            ]
      ]
