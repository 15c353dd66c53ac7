-- ===== src/Prelude/Lists.antt =====
-- Lists measured by native numbers, Boolean quantifiers, and membership.
use Prim.Native.Nat.{ℕ, zero, suc}
use mathlib.Core.Path.{◌≡◌, refl, sym, subst}
use mathlib.Core.Logic.{inl, inr}
use mathlib.Core.Bool.{Bool, true, false, ◌||◌}
use mathlib.Core.Option.{Option, none, some}
use mathlib.Core.List.{List, [], ◌∷◌, Memᴰ}
use mathlib.Core.List.Memᴰ
use native.Mathlib.Omega.{arith}
use open_delo.Prelude.Tests.{if◌then◌else◌, Bool-cases}

abbrev pub All {ℓ κ} : {A : Type ℓ} → (A → Type κ) → List A → Type κ
All P [] = Unit
All P (x ∷ xs) = P x × All P xs

module _ {ℓ} {A : Type ℓ} where
  abbrev pub length : List A → ℕ
  length [] = 0
  length (x ∷ xs) = suc (length xs)

  abbrev pub drop : ℕ → List A → List A
  drop zero xs = xs
  drop (suc n) [] = []
  drop (suc n) (x ∷ xs) = drop n xs

  abbrev pub take : ℕ → List A → List A
  take zero xs = []
  take (suc n) [] = []
  take (suc n) (x ∷ xs) = x ∷ take n xs

  abbrev pub any : (A → Bool) → List A → Bool
  any p [] = false
  any p (x ∷ xs) = p x || any p xs

  -- The elements that pass the test, in order.
  abbrev pub keep : (A → Bool) → List A → List A
  keep p [] = []
  keep p (x ∷ xs) = let rest = keep p xs in if p x then x ∷ rest else rest

  -- The first element that passes the test.
  abbrev pub find : (A → Bool) → List A → Option A
  find p [] = none
  find p (x ∷ xs) = let rest = find p xs in if p x then some x else rest

  pub find-mem :
      (p : A → Bool) (xs : List A) (a : A) → find p xs ≡ some a → Memᴰ a xs × (p a ≡ true)
  find-mem p [] a h = cc
  find-mem p (x ∷ xs) a h = elim (Bool-cases (p x)) [
    | inl e ↦ let same : x ≡ a = ground arith in (Memᴰ.head (sym same), rw (← same) e)
    | inr e ↦ let later = find-mem p xs a (rw e at h) in (Memᴰ.tail later.0, later.1)
  ]

  pub All-mem {κ} : (P : A → Type κ) (xs : List A) (a : A) → All P xs → Memᴰ a xs → P a
  All-mem P [] a ps m = elim m [ ]
  All-mem P (x ∷ xs) a ps (Memᴰ.head e) = subst P (sym e) ps.0
  All-mem P (x ∷ xs) a ps (Memᴰ.tail m) = All-mem P xs a ps.1 m

  pub All-map {κ μ} :
      (P : A → Type κ) (Q : A → Type μ) (xs : List A) → ((a : A) → P a → Q a) → All P xs → All Q xs
  All-map P Q [] f ps = tt
  All-map P Q (x ∷ xs) f ps = (f x ps.0, All-map P Q xs f ps.1)

  -- Every element of a list is a member of it.
  pub All-self : (xs : List A) → All (λ a. Memᴰ a xs) xs
  All-self [] = tt
  All-self (x ∷ xs) = (
    Memᴰ.head refl,
    All-map (λ a. Memᴰ a xs) (λ a. Memᴰ a (x ∷ xs)) xs (λ a m. Memᴰ.tail m) (All-self xs),
  )

  pub All-× {κ μ} :
      (P : A → Type κ) (Q : A → Type μ) (xs : List A)
      → All P xs
      → All Q xs
      → All (λ a. P a × Q a) xs
  All-× P Q [] ps qs = tt
  All-× P Q (x ∷ xs) ps qs = ((ps.0, qs.0), All-× P Q xs ps.1 qs.1)

  pub mem_of-keep :
      (p : A → Bool) (xs : List A) (a : A) → Memᴰ a (keep p xs) → Memᴰ a xs × (p a ≡ true)
  mem_of-keep p [] a m = elim m [ ]
  mem_of-keep p (x ∷ xs) a m = elim (Bool-cases (p x)) [
    | inl e ↦ elim (Memᴰ.cases_cons (subst (Memᴰ a) (rw e) m)) [
      | inl same ↦ (Memᴰ.head same, rw same e)
      | inr m' ↦ let (n, t) = mem_of-keep p xs a m' in (Memᴰ.tail n, t)
    ]
    | inr e ↦ let (n, t) = mem_of-keep p xs a (subst (Memᴰ a) (rw e) m) in (Memᴰ.tail n, t)
  ]

  pub mem-keep : (p : A → Bool) (xs : List A) (a : A) → Memᴰ a xs → p a ≡ true → Memᴰ a (keep p xs)
  mem-keep p [] a m t = elim m [ ]
  mem-keep p (x ∷ xs) a (Memᴰ.head same) t = rw (← same, t) (Memᴰ.head refl)
  mem-keep p (x ∷ xs) a (Memᴰ.tail m) t = elim (Bool-cases (p x)) [
    | inl e ↦ rw e (Memᴰ.tail (mem-keep p xs a m t))
    | inr e ↦ rw e (mem-keep p xs a m t)
  ]

  pub any-mem : (p : A → Bool) (xs : List A) (a : A) → Memᴰ a xs → p a ≡ true → any p xs ≡ true
  any-mem p [] a m e = elim m [ ]
  any-mem p (x ∷ xs) a (Memᴰ.head same) e = rw (← same, e) refl
  any-mem p (x ∷ xs) a (Memᴰ.tail m) e = ground (arith, any-mem p xs a m e)
