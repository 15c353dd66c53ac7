-- ===== src/Intent/Offered.antt =====
-- internal/core/intent: what an intent can be, given what the adapters offer.
use open_delo.Prelude.{
  String, ◌≡◌, subst, inl, inr, true, List, [], ◌∷◌, ◌++◌, arith, Bool-cases, Option-cases,
  contradiction, All,
}
use open_delo.Platform.AppError.{ok, Result-cases, is_ok}
use open_delo.Intent.Catalog.{
  Capability, Codec, Declaration, Entry, Catalog, empty_catalog, is_declared,
  validate as validate_capability, validate_all, entry_of, add_entry, add_capabilities,
  parse_capabilities, add_declarations, new_catalog,
}

-- A capability whose pointers are all set.
pub record Declared (c : Capability) : Type 0 where
  pub idempotent : is_declared c.idempotent ≡ true
  pub reversible : is_declared c.reversible ≡ true
  pub sensitive_data : is_declared c.sensitive_data ≡ true

abbrev pub DeclaredEntry : Entry → Type 0
DeclaredEntry e = Declared e.capability

pub record WellDeclared (catalog : Catalog) : Type 0 where
  pub by_tool : All (λ e. DeclaredEntry e.1) catalog.by_tool
  pub by_route : All DeclaredEntry catalog.by_route

validate-Declared : (c : Capability) → is_ok (validate_capability c) ≡ true → Declared c
unfolding validate_capability
validate-Declared c h = record {
  idempotent = ground (arith, h);
  reversible = ground (arith, h);
  sensitive_data = ground (arith, h);
}

validate_all-Declared : (cs : List Capability) → is_ok (validate_all cs) ≡ true → All Declared cs
unfolding validate_all
validate_all-Declared [] h = tt
validate_all-Declared (c ∷ cs) h =
    (validate-Declared c (ground (arith, h)), validate_all-Declared cs (ground (arith, h)))

All-append {ℓ κ} :
    {A : Type ℓ} (P : A → Type κ) (xs : List A) (x : A) → All P xs → P x → All P (xs ++ x ∷ [])
All-append P [] x ps p = (p, tt)
All-append P (y ∷ xs) x ps p = (ps.0, All-append P xs x ps.1 p)

add_entry-WellDeclared :
    (e : Entry) (catalog larger : Catalog)
    → add_entry e catalog ≡ ok larger
    → DeclaredEntry e
    → WellDeclared catalog
    → WellDeclared larger
unfolding add_entry
add_entry-WellDeclared e catalog larger h d w =
    let tools : larger.by_tool ≡ (e.capability.tool, e) ∷ catalog.by_tool = ground (arith, h) in
    let routes : larger.by_route ≡ catalog.by_route ++ e ∷ [] = ground (arith, h) in
    record {
      by_tool = rw tools (d, w.by_tool);
      by_route = rw routes (All-append DeclaredEntry catalog.by_route e w.by_route d);
    }

add_capabilities-WellDeclared :
    (service : String) (cs : List Capability) (catalog larger : Catalog)
    → add_capabilities service cs catalog ≡ ok larger
    → All Declared cs
    → WellDeclared catalog
    → WellDeclared larger
unfolding add_capabilities entry_of
add_capabilities-WellDeclared service [] catalog larger h ds w =
    let same : catalog ≡ larger = ground (arith, h) in subst WellDeclared same w
add_capabilities-WellDeclared service (c ∷ cs) catalog larger h ds w =
    elim (Result-cases (add_entry (entry_of service c) catalog)) [
      | inr (code, e) ↦ contradiction (ground (arith, e, h))
      | inl (next, e) ↦
          add_capabilities-WellDeclared service cs next larger (rw e at h) ds.1
            (add_entry-WellDeclared (entry_of service c) catalog next e ds.0 w)
    ]

module _ (codec : Codec) where
  parse_capabilities-Declared :
      (d : Declaration) (cs : List Capability)
      → parse_capabilities codec d ≡ ok cs
      → All Declared cs
  unfolding parse_capabilities
  parse_capabilities-Declared d cs h = elim (Option-cases (codec.capabilities d.capabilities)) [
    | inl e ↦ contradiction (ground (arith, e, h))
    | inr (parsed, e) ↦
        let same : parsed ≡ cs = ground (arith, e, h) in
        let valid : is_ok (validate_all parsed) ≡ true = ground (arith, e, h) in
        subst (All Declared) same (validate_all-Declared parsed valid)
  ]

  add_declarations-WellDeclared :
      (ds : List Declaration) (catalog larger : Catalog)
      → add_declarations codec ds catalog ≡ ok larger
      → WellDeclared catalog
      → WellDeclared larger
  unfolding add_declarations
  add_declarations-WellDeclared [] catalog larger h w =
      let same : catalog ≡ larger = ground (arith, h) in subst WellDeclared same w
  add_declarations-WellDeclared (d ∷ ds) catalog larger h w = elim (Bool-cases d.enabled) [
    | inr off ↦ add_declarations-WellDeclared ds catalog larger (rw off at h) w
    | inl on ↦ elim (Result-cases (parse_capabilities codec d)) [
      | inr (code, e) ↦ contradiction (ground (arith, on, e, h))
      | inl (cs, e) ↦ elim (Result-cases (add_capabilities d.service cs catalog)) [
        | inr (code, e') ↦ contradiction (ground (arith, on, e, e', h))
        | inl (next, e') ↦ add_declarations-WellDeclared ds next larger (rw (on, e, e') at h) (
            add_capabilities-WellDeclared d.service cs catalog next e'
              (parse_capabilities-Declared d cs e) w)
      ]
    ]
  ]

  pub new_catalog-WellDeclared :
      (ds : List Declaration) (catalog : Catalog)
      → new_catalog codec ds ≡ ok catalog
      → WellDeclared catalog
  unfolding new_catalog
  new_catalog-WellDeclared ds catalog h =
      add_declarations-WellDeclared ds empty_catalog catalog h
        (record { by_tool = tt; by_route = tt })
