-- ===== src/Scope/Resources.antt =====
-- internal/core/scope/scope.go: what `sameResource` compares.
use text.Mathlib.TextPositions.{eq_refl}
use open_delo.Prelude.{
  suc, String, ◌≡◌, ◌≢◌, refl, ap, subst, inl, inr, true, ◌==◌, eq_iff, [], ◌∷◌, All, length,
  if◌then◌else◌, arith, Bool-cases,
}
use open_delo.Scope.Dimensions.{Resource, value_of, agrees_on}

abbrev pub Lacks : String → Resource → Type 0
Lacks k r = All (λ e. e.0 ≢ k) r

-- A Go map: no key twice.
abbrev pub IsMap : Resource → Type 0
IsMap [] = Unit
IsMap ((k, v) ∷ r) = Lacks k r × IsMap r

-- No value is the empty text, as `extractResource` of internal/core/intent makes sure.
abbrev pub IsFilled : Resource → Type 0
IsFilled r = All (λ e. e.1 ≢ "") r

without : String → Resource → Resource
without k [] = []
without k ((j, v) ∷ r) = let rest = without k r in if j == k then rest else (j, v) ∷ rest

value_of-without :
    (k j : String) (r : Resource) → value_of (without k r) j ≡ (if k == j then "" else value_of r j)
unfolding value_of without
value_of-without k j [] = ground arith
value_of-without k j ((i, v) ∷ r) =
    ground (arith, value_of-without k j r, eq_iff i k, eq_iff i j, eq_iff k j)

Lacks-without : (k j : String) (r : Resource) → Lacks j r → Lacks j (without k r)
unfolding without
Lacks-without k j [] h = tt
Lacks-without k j ((i, v) ∷ r) h = elim (Bool-cases (i == k)) [
  | inl e ↦ rw (e, without) (Lacks-without k j r h.1)
  | inr e ↦ rw (e, without) (h.0, Lacks-without k j r h.1)
]

IsMap-without : (k : String) (r : Resource) → IsMap r → IsMap (without k r)
unfolding without
IsMap-without k [] h = tt
IsMap-without k ((i, v) ∷ r) h = elim (Bool-cases (i == k)) [
  | inl e ↦ rw (e, without) (IsMap-without k r h.1)
  | inr e ↦ rw (e, without) (Lacks-without k i r h.0, IsMap-without k r h.1)
]

without-Lacks : (k : String) (r : Resource) → Lacks k r → without k r ≡ r
unfolding without
without-Lacks k [] h = refl
without-Lacks k ((i, v) ∷ r) h = ground (arith, without-Lacks k r h.1, eq_iff i k)

length-without :
    (k : String) (r : Resource)
    → IsMap r
    → value_of r k ≢ ""
    → length r ≡ suc (length (without k r))
unfolding value_of without
length-without k [] m h = absurd (h refl)
length-without k ((i, v) ∷ r) m h = elim (Bool-cases (i == k)) [
  | inl e ↦
      let same : i ≡ k = (eq_iff i k).0 e in
      rw (e, without, without-Lacks k r (subst (λ x. Lacks x r) same m.0)) refl
  | inr e ↦ rw (e, without) (ap suc (length-without k r m.1 (ground arith)))
]

-- A key of `left` with a value has that value in `right`.
value_of-agrees_on :
    (left right : Resource) (k : String)
    → agrees_on left right ≡ true
    → value_of left k ≢ ""
    → value_of right k ≡ value_of left k
unfolding agrees_on value_of
value_of-agrees_on [] right k h n = absurd (n refl)
value_of-agrees_on ((j, v) ∷ left) right k h n = elim (Bool-cases (j == k)) [
  | inl e ↦ ground (arith, eq_iff j k, eq_iff (value_of right j) v)
  | inr e ↦ ground (arith, value_of-agrees_on left right k)
]

agrees_on-without :
    (k : String) (left right : Resource)
    → Lacks k left
    → agrees_on left right ≡ true
    → agrees_on left (without k right) ≡ true
unfolding agrees_on
agrees_on-without k [] right l h = refl
agrees_on-without k ((j, v) ∷ left) right l h =
    ground (arith, value_of-without k j right, eq_iff k j, l.0, agrees_on-without k left right l.1)

-- Two maps of one size that agree on the keys of the first, whose values are not empty, have the
-- same value at every key.
pub value_of-same_resource :
    (left right : Resource)
    → IsMap left
    → IsMap right
    → IsFilled left
    → length left ≡ length right
    → agrees_on left right ≡ true
    → (k : String) → value_of right k ≡ value_of left k
unfolding value_of agrees_on
value_of-same_resource [] [] ml mr f e h k = refl
value_of-same_resource [] (x ∷ right) ml mr f e h k = absurd (omega arith)
value_of-same_resource ((j, v) ∷ left) right ml mr f e h k =
    let at_j : value_of right j ≡ v = ground (arith, eq_iff (value_of right j) v) in
    let shorter : length right ≡ suc (length (without j right)) =
      length-without j right mr (rw at_j f.0) in
    let rest : agrees_on left right ≡ true = ground arith in
    ground (
      arith,
      at_j,
      eq_iff j k,
      value_of-without j k right,
      value_of-same_resource left (without j right) ml.1 (IsMap-without j right mr) f.1
          (omega arith) (agrees_on-without j left right ml.0 rest) k,
    )

pub agrees_on_trans :
    (a b c : Resource)
    → IsFilled a
    → agrees_on a b ≡ true
    → agrees_on b c ≡ true
    → agrees_on a c ≡ true
unfolding agrees_on
agrees_on_trans [] b c f p q = refl
agrees_on_trans ((k, v) ∷ a) b c f p q = ground (
  arith,
  eq_iff (value_of b k) v,
  eq_iff (value_of c k) v,
  value_of-agrees_on b c k q,
  f.0,
  agrees_on_trans a b c f.1,
)

agrees_on-cons :
    (l r : Resource) (k v : String)
    → Lacks k l
    → agrees_on l r ≡ true
    → agrees_on l ((k, v) ∷ r) ≡ true
unfolding agrees_on
agrees_on-cons [] r k v h e = refl
agrees_on-cons ((j, w) ∷ l) r k v h e =
    unfold value_of in ground (arith, eq_iff k j, h.0, agrees_on-cons l r k v h.1)

pub agrees_on_refl : (r : Resource) → IsMap r → agrees_on r r ≡ true
unfolding agrees_on
agrees_on_refl [] m = refl
agrees_on_refl ((k, v) ∷ r) m =
    ground (arith, eq_refl k, eq_refl v, agrees_on-cons r r k v m.0 (agrees_on_refl r m.1))
