-- ===== src/Intent/Fields.antt =====
-- internal/core/intent/resolver.go: what the resource of an intent is like.
use open_delo.Prelude.{
  String, ◌≡◌, sym, subst, ◌≢◌, inl, inr, Bool, false, ◌||◌, List, [], ◌∷◌, arith, contradiction,
  ◌==◌, eq_iff, Bool-cases,
}
use open_delo.Platform.AppError.{ok, Result-cases}
use open_delo.Scope.Dimensions.{Resource, has_wildcard, mentions_wild}
use open_delo.Scope.Resources.{Lacks, IsMap, IsFilled}
use open_delo.Intent.Catalog.{Field}
use open_delo.Intent.Resolver.{field_text, put_field, collect}

Lacks-put_field :
    (j key value : String) (r : Resource) → key ≢ j → Lacks j r → Lacks j (put_field key value r)
unfolding put_field
Lacks-put_field j key value [] other l = (other, tt)
Lacks-put_field j key value ((k, v) ∷ r) other l = elim (Bool-cases (k == key)) [
  | inl e ↦ rw e (other, l.1)
  | inr e ↦ rw e (l.0, Lacks-put_field j key value r other l.1)
]

IsMap-put_field : (key value : String) (r : Resource) → IsMap r → IsMap (put_field key value r)
unfolding put_field
IsMap-put_field key value [] m = (tt, tt)
IsMap-put_field key value ((k, v) ∷ r) m = elim (Bool-cases (k == key)) [
  | inl e ↦ let same = (eq_iff k key).0 e in rw e (subst (λ x. Lacks x r) same m.0, m.1)
  | inr e ↦
      let other : key ≢ k = λ same. ground (arith, e, eq_iff k key, sym same) in
      rw e (Lacks-put_field k key value r other m.0, IsMap-put_field key value r m.1)
]

IsFilled-put_field :
    (key value : String) (r : Resource) → value ≢ "" → IsFilled r → IsFilled (put_field key value r)
unfolding put_field
IsFilled-put_field key value [] full f = (full, tt)
IsFilled-put_field key value ((k, v) ∷ r) full f = elim (Bool-cases (k == key)) [
  | inl e ↦ rw e (full, f.1)
  | inr e ↦ rw e (f.0, IsFilled-put_field key value r full f.1)
]

has_wildcard-put_field :
    (key value : String) (r : Resource)
    → mentions_wild value ≡ false
    → has_wildcard r ≡ false
    → has_wildcard (put_field key value r) ≡ false
unfolding put_field has_wildcard
has_wildcard-put_field key value [] tame h = ground (arith, tame)
has_wildcard-put_field key value ((k, v) ∷ r) tame h =
    ground (arith, tame, h, has_wildcard-put_field key value r tame)

field_text-filled :
    (key : String) (fields : List (String × Field)) (s : String)
    → field_text key fields ≡ ok s
    → s ≢ ""
unfolding field_text
field_text-filled key fields s h e = ground (arith, h, e, eq_iff s "")

-- A map without empty values, and with wildcards only where they were noted.
pub record IsClean (r : Resource) (ambiguous : Bool) : Type 0 where
  pub is_map : IsMap r
  pub is_filled : IsFilled r
  pub noted : ambiguous ≡ false → has_wildcard r ≡ false

pub collect-IsClean :
    (keys : List String) (fields : List (String × Field)) (r r' : Resource) (a a' : Bool)
    → collect keys fields r a ≡ ok (r', a')
    → IsClean r a
    → IsClean r' a'
unfolding collect
collect-IsClean [] fields r r' a a' h c =
    let same_resource : r ≡ r' = ground (arith, h) in
    let same_note : a ≡ a' = ground (arith, h) in
    subst (λ x. IsClean r' x) same_note (subst (λ x. IsClean x a) same_resource c)
collect-IsClean (key ∷ keys) fields r r' a a' h c = elim (Result-cases (field_text key fields)) [
  | inr (code, e) ↦ contradiction (ground (arith, e, h))
  | inl (value, e) ↦
      collect-IsClean keys fields (put_field key value r) r' (a || mentions_wild value) a'
        (rw e at h)
        (record {
          is_map = IsMap-put_field key value r c.is_map;
          is_filled =
              IsFilled-put_field key value r (field_text-filled key fields value e) c.is_filled;
          noted = λ quiet.
              has_wildcard-put_field key value r (ground (arith, quiet))
                (c.noted (ground (arith, quiet)));
        })
]
