-- ===== src/Matcher/Selection.antt =====
-- internal/core/matcher/matcher.go: what `selectIdentities` and `availableIdentities` return.
use open_delo.Prelude.{
  suc, ◌<◌, String, ◌≡◌, ◌≢◌, refl, subst, inl, inr, ◌==◌, eq_iff, some, List, [], ◌∷◌, any, length,
  All, arith, Bool-cases, Option-cases,
}
use text.Mathlib.TextPositions.{eq_refl}
use open_delo.Platform.AppError.{ok, Result-cases}
use open_delo.Matcher.Identity.{Identity}
use open_delo.Matcher.Matching.{
  available_identities, identity_ids, by_id, pick, before, insert_sorted, sort_by_id,
  select_identities,
}

module _ (P : Identity → Type 0) where
  by_id-All :
      (is : List Identity) (id : String) (i : Identity) → All P is → by_id is id ≡ some i → P i
  unfolding by_id
  by_id-All [] id i ps h = cc
  by_id-All (j ∷ js) id i ps h = elim (Option-cases (by_id js id)) [
    | inr (k, e) ↦ by_id-All js id i ps.1 (ground arith)
    | inl e ↦ let same : j ≡ i = ground arith in subst P same ps.0
  ]

  pick-All :
      (available : List Identity) (seen ids : List String)
      → All P available
      → All P (pick available seen ids)
  unfolding pick
  pick-All available seen [] ps = tt
  pick-All available seen (id ∷ ids) ps = elim (Option-cases (by_id available id)) [
    | inl e ↦ rw (e, pick) (pick-All available seen ids ps)
    | inr (i, e) ↦ elim (Bool-cases (any (λ s. s == id) seen)) [
      | inl b ↦ rw (e, b, pick) (pick-All available seen ids ps)
      | inr b ↦
          rw (e, b, pick) (by_id-All available id i ps e, pick-All available (id ∷ seen) ids ps)
    ]
  ]

  insert_sorted-All :
      (i : Identity) (js : List Identity) → P i → All P js → All P (insert_sorted i js)
  unfolding insert_sorted
  insert_sorted-All i [] p ps = (p, tt)
  insert_sorted-All i (j ∷ js) p ps = elim (Bool-cases (before j i)) [
    | inl e ↦ rw (e, insert_sorted) (ps.0, insert_sorted-All i js p ps.1)
    | inr e ↦ rw (e, insert_sorted) (p, ps)
  ]

  sort_by_id-All : (is : List Identity) → All P is → All P (sort_by_id is)
  unfolding sort_by_id
  sort_by_id-All [] ps = tt
  sort_by_id-All (i ∷ is) ps = insert_sorted-All i (sort_by_id is) ps.0 (sort_by_id-All is ps.1)

  pub select_identities-All :
      (ids : List String) (available : List Identity)
      → All P available
      → All P (select_identities ids available)
  unfolding select_identities
  select_identities-All ids available ps =
      sort_by_id-All (pick available [] ids) (pick-All available [] ids ps)

length-insert_sorted :
    (i : Identity) (js : List Identity) → length (insert_sorted i js) ≡ suc (length js)
unfolding insert_sorted
length-insert_sorted i [] = refl
length-insert_sorted i (j ∷ js) = ground (arith, length-insert_sorted i js)

length-sort_by_id : (is : List Identity) → length (sort_by_id is) ≡ length is
unfolding sort_by_id
length-sort_by_id [] = refl
length-sort_by_id (i ∷ is) =
    omega (arith, length-insert_sorted i (sort_by_id is), length-sort_by_id is)

by_id-own : (i : Identity) (is : List Identity) → (j : Identity) × (by_id (i ∷ is) i.id ≡ some j)
unfolding by_id
by_id-own i is = elim (Option-cases (by_id is i.id)) [
  | inl e ↦ (i, ground (arith, eq_refl i.id))
  | inr (j, e) ↦ (j, ground arith)
]

-- The level of the sole identity finds something wherever there is an identity.
pub select_identities-own :
    (i : Identity) (is : List Identity)
    → 0 < length (select_identities (identity_ids (i ∷ is)) (i ∷ is))
unfolding select_identities identity_ids
select_identities-own i is =
    let (j, e) = by_id-own i is in
    let some_picked : 0 < length (pick (i ∷ is) [] (i.id ∷ identity_ids is)) =
      rw (e, pick) (omega arith) in
    omega (arith, length-sort_by_id (pick (i ∷ is) [] (i.id ∷ identity_ids is)))

-- What the check of the loaded identities establishes of each of them.
abbrev pub Fits : String → Identity → Type 0
Fits service i = (i.service ≡ service) × (i.id ≢ "")

pub available_identities-ok :
    (service : String) (is available : List Identity)
    → available_identities service is ≡ ok available
    → (available ≡ is) × All (Fits service) is
unfolding available_identities
available_identities-ok service [] available h = (ground arith, tt)
available_identities-ok service (i ∷ is) available h =
    elim (Result-cases (available_identities service is)) [
      | inl (rest, e) ↦
          let (same, fits) = available_identities-ok service is rest e in
          (
            ground (arith, e),
            ((ground (arith, eq_iff i.service service), ground (arith, eq_iff i.id "")), fits),
          )
      | inr (c, e) ↦ ground (arith, e)
    ]

pub available_identities-total :
    (service : String) (is : List Identity)
    → All (Fits service) is
    → available_identities service is ≡ ok is
unfolding available_identities
available_identities-total service [] h = refl
available_identities-total service (i ∷ is) h =
    ground
      (arith, eq_iff i.service service, eq_iff i.id "", available_identities-total service is h.1)
