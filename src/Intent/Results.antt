-- ===== src/Intent/Results.antt =====
-- internal/core/intent/resolver.go: what `Resolve` returns.
use open_delo.Prelude.{
  find-mem, mem_of-keep, find, keep, String, ◌≡◌, refl, sym, ap, ◌∙◌, subst, ◌⊎◌, inl, inr, Bool,
  true, false, ◌&&◌, none, some, List, [], ◌∷◌, Memᴰ, arith, ◌==◌, eq_iff, Bool-cases, Option-cases,
  &&-true, contradiction,
}
use open_delo.Platform.AppError.{ok, Result-cases}
use open_delo.Scope.Dimensions.{filled, has_wildcard}
use open_delo.Scope.Resources.{IsMap, IsFilled}
use open_delo.Intent.Structured.{Intent, resource_key_of}
use open_delo.Intent.Catalog.{
  Codec, Entry, Catalog, look_up, only_one, fitting, lookup_tool, split_path, match_segments,
  lookup_route,
}
use open_delo.Intent.Resolver.{
  flags, Call, Patterns, collect, Extracted, extract_resource, lookup, intent_of, resolve,
}
use open_delo.Intent.Fields.{collect-IsClean, IsClean}

look_up-mem :
    (key : String) (entries : List (String × Entry)) (e : Entry)
    → look_up key entries ≡ some e
    → Memᴰ (key, e) entries
unfolding look_up
look_up-mem key entries e h = elim (Option-cases (find (λ x. x.0 == key) entries)) [
  | inl none_there ↦ contradiction (ground (arith, none_there, h))
  | inr ((k, f), there) ↦
      let (member, named) = find-mem (λ x. x.0 == key) entries (k, f) there in
      let same : f ≡ e = ground (arith, there, h) in
      let same_key = (eq_iff k key).0 named in
      subst (λ x. Memᴰ (key, x) entries) same (subst (λ x. Memᴰ (x, f) entries) same_key member)
]

clean_empty : has_wildcard [] ≡ false
unfolding has_wildcard
clean_empty = refl

only_one-alone : (es : List Entry) (e : Entry) → only_one es ≡ ok (some e) → es ≡ e ∷ []
unfolding only_one
only_one-alone [] e h = contradiction (ground (arith, h))
only_one-alone (f ∷ []) e h = ground (arith, h)
only_one-alone (f ∷ g ∷ es) e h = contradiction (ground (arith, h))

only_one-mem : (es : List Entry) (e : Entry) → only_one es ≡ ok (some e) → Memᴰ e es
unfolding only_one
only_one-mem [] e h = contradiction (ground (arith, h))
only_one-mem (f ∷ []) e h = Memᴰ.head (ground (arith, h))
only_one-mem (f ∷ g ∷ es) e h = contradiction (ground (arith, h))

-- Whether a template has the method and the path of a call.
abbrev pub fits : Codec → Call → Entry → Bool
fits codec call e =
    (e.capability.method == codec.to_upper call.method)
    && match_segments e.segments (split_path call.path)

module _ (codec : Codec) where
  -- Where the entry of a call comes from: the tool's name, or else the one template that fits.
  abbrev pub Offers : Catalog → Call → Entry → Type 0
  Offers catalog call e =
      Memᴰ (call.tool, e) catalog.by_tool
      ⊎ ((call.tool ≡ "")
          × Memᴰ e catalog.by_route
          × (e.capability.method ≡ codec.to_upper call.method)
          × (match_segments e.segments (split_path call.path) ≡ true)
          × (keep (fits codec call) catalog.by_route ≡ e ∷ []))

  lookup_route-fits :
      (catalog : Catalog) (call : Call) (e : Entry)
      → lookup_route codec catalog call.method call.path ≡ ok (some e)
      → Memᴰ e catalog.by_route
        × (e.capability.method ≡ codec.to_upper call.method)
        × (match_segments e.segments (split_path call.path) ≡ true)
        × (keep (fits codec call) catalog.by_route ≡ e ∷ [])
  unfolding lookup_route fitting
  lookup_route-fits catalog call e h =
      let (member, passes) =
        mem_of-keep (fits codec call) catalog.by_route e
          (only_one-mem (fitting codec catalog call.method call.path) e h) in
      let (same, matches) =
        &&-true (e.capability.method == codec.to_upper call.method)
          (match_segments e.segments (split_path call.path)) passes in
      let method = (eq_iff e.capability.method (codec.to_upper call.method)).0 same in
      let alone = only_one-alone (fitting codec catalog call.method call.path) e h in
      (member, method, matches, alone)

  pub lookup-Offers :
      (catalog : Catalog) (call : Call) (e : Entry)
      → lookup codec catalog call ≡ ok e
      → Offers catalog call e
  unfolding lookup lookup_tool
  lookup-Offers catalog call e h = elim (Bool-cases (filled call.tool)) [
    | inl named ↦ elim (Option-cases (look_up call.tool catalog.by_tool)) [
      | inl off ↦ contradiction (ground (arith, named, off, h))
      | inr (f, there) ↦
          let same : f ≡ e = ground (arith, named, there, h) in
          inl (look_up-mem call.tool catalog.by_tool e (there ∙ ap some same))
    ]
    | inr unnamed ↦
        let bare : call.tool ≡ "" = ground (arith, unnamed, eq_iff call.tool "") in
        elim (Bool-cases (filled call.method && filled call.path)) [
          | inr bad ↦ contradiction (ground (arith, unnamed, bad, h))
          | inl good ↦ elim (Result-cases (lookup_route codec catalog call.method call.path)) [
            | inr (code, off) ↦ contradiction (ground (arith, unnamed, good, off, h))
            | inl (none, off) ↦ contradiction (ground (arith, unnamed, good, off, h))
            | inl (some f, there) ↦
                let same : f ≡ e = ground (arith, unnamed, good, there, h) in
                let (member, method, matches, alone) =
                  lookup_route-fits catalog call e (there ∙ ap (λ x. ok (some x)) same) in
                inr (bare, member, method, matches, alone)
          ]
        ]
  ]

  -- What an intent takes from the catalog and the call.
  pub record IsFaithful (catalog : Catalog) (call : Call) (i : Intent) : Type 0 where
    pub entry : Entry
    pub offered : Offers catalog call entry
    pub service : i.service ≡ entry.service
    pub operation : i.operation ≡ entry.capability.operation
    pub risk_label : i.risk_label ≡ entry.capability.risk
    pub desired_change : i.desired_change ≡ call.desired_change
    pub resource_key : i.resource_key ≡ resource_key_of i.resource
    pub is_map : IsMap i.resource
    pub is_filled : IsFilled i.resource
    pub noted : i.resource_ambiguous ≡ false → has_wildcard i.resource ≡ false

  extract_resource-IsClean :
      (raw : String) (keys : List String) (x : Extracted)
      → extract_resource codec raw keys ≡ ok x
      → IsClean x.resource x.ambiguous
  unfolding extract_resource
  extract_resource-IsClean raw keys x h = elim (Bool-cases (codec.is_blank raw)) [
    | inl blank ↦ contradiction (ground (arith, blank, h))
    | inr written ↦ elim (Option-cases (codec.fields raw)) [
      | inl bad ↦ contradiction (ground (arith, written, bad, h))
      | inr (fields, parsed) ↦ elim (Result-cases (collect keys fields [] false)) [
        | inr (code, e) ↦ contradiction (ground (arith, written, parsed, e, h))
        | inl ((r, a), e) ↦
            let same : r ≡ x.resource = ground (arith, written, parsed, e, h) in
            let same_note : a ≡ x.ambiguous = ground (arith, written, parsed, e, h) in
            subst (IsClean x.resource) same_note (
              subst (λ y. IsClean y a) same
                (collect-IsClean keys fields [] r false a e
                  (record { is_map = tt; is_filled = tt; noted = λ quiet. clean_empty })))
      ]
    ]
  ]

  resolve-parts :
      (patterns : Patterns) (catalog : Catalog) (call : Call) (i : Intent)
      → resolve codec patterns (some catalog) call ≡ ok i
      → (e : Entry) × (lookup codec catalog call ≡ ok e)
        × ((x : Extracted) × (extract_resource codec call.resource e.capability.resource_keys
              ≡ ok x)
            × ((b : Bool × Bool × Bool) × (i ≡ intent_of codec patterns call e x b)))
  unfolding resolve
  resolve-parts patterns catalog call i h = elim (Result-cases (lookup codec catalog call)) [
    | inr (code, e) ↦ contradiction (ground (arith, e, h))
    | inl (f, e) ↦
        elim (Result-cases (extract_resource codec call.resource f.capability.resource_keys)) [
          | inr (code, e') ↦ contradiction (ground (arith, e, e', h))
          | inl (x, e') ↦ elim (Result-cases (flags f.capability)) [
            | inr (code, e'') ↦ contradiction (ground (arith, e, e', e'', h))
            | inl (b, e'') ↦ (f, e, (x, e', (b, ground (arith, e, e', e'', h))))
          ]
        ]
  ]

  -- Every intent that `Resolve` returns is one that the catalog offers for the call: its service,
  -- operation and risk label are those of the tool that was named or, where none was, of the one
  -- template of the catalog that has the method and the path of the call; its resource is a map
  -- without empty values, with no wildcard unless that was noted; and its key is made of that
  -- resource.
  pub resolve-IsFaithful :
      (patterns : Patterns) (catalog : Catalog) (call : Call) (i : Intent)
      → resolve codec patterns (some catalog) call ≡ ok i
      → IsFaithful catalog call i
  unfolding intent_of
  resolve-IsFaithful patterns catalog call i h =
      let (e, found, (x, extracted, (b, same))) = resolve-parts patterns catalog call i h in
      let clean = extract_resource-IsClean call.resource e.capability.resource_keys x extracted in
      subst (IsFaithful catalog call) (sym same) (record {
        entry = e;
        offered = lookup-Offers catalog call e found;
        service = refl;
        operation = refl;
        risk_label = refl;
        desired_change = refl;
        resource_key = refl;
        is_map = clean.is_map;
        is_filled = clean.is_filled;
        noted = clean.noted;
      })
