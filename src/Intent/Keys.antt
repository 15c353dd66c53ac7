-- ===== src/Intent/Keys.antt =====
-- internal/core/intent/intent.go: what the key of a resource does not tell apart.
use Prim.Native.String.{compare}
use text.Mathlib.Text.{is_lt}
use open_delo.Prelude.{String, ◌≡◌, refl, ap, true, false, [], ◌∷◌, ◌==◌, eq_iff}
use open_delo.Prelude.Sorting.{insert_string, sort_strings, ◌+++◌, join}
use open_delo.Scope.Dimensions.{Resource, value_of}
use open_delo.Intent.Structured.{key_part, resource_key_of}

append_assoc : (s t u : String) → (s +++ t) +++ u ≡ s +++ (t +++ u)
append_assoc String.[] t u = refl
append_assoc (String.◌∷◌ c s) t u = ap (λ x. String.◌∷◌ c x) (append_assoc s t u)

abbrev pub two_fields : String → String → String → String → Resource
two_fields j v k w = (j, v) ∷ (k, w) ∷ []

same_text : (s : String) → (s == s) ≡ true
same_text s = (eq_iff s s).1 refl

first_value : (j v k w : String) → value_of (two_fields j v k w) j ≡ v
unfolding value_of
first_value j v k w = rw (same_text j) refl

second_value : (j v k w : String) → (j == k) ≡ false → value_of (two_fields j v k w) k ≡ w
unfolding value_of
second_value j v k w apart = rw apart (rw (same_text k) refl)

sorted_two : (j k : String) → is_lt (compare k j) ≡ false → sort_strings (j ∷ k ∷ []) ≡ j ∷ k ∷ []
unfolding sort_strings insert_string
sorted_two j k in_order = rw in_order refl

-- The key of a resource of two fields, the first before the second.
resource_key_of_two :
    (j v k w : String)
    → is_lt (compare k j) ≡ false
    → (j == k) ≡ false
    → resource_key_of (two_fields j v k w) ≡ (j +++ "=" +++ v) +++ ";" +++ (k +++ "=" +++ w)
unfolding resource_key_of key_part join
resource_key_of_two j v k w in_order apart =
    rw (sorted_two j k in_order, first_value j v k w, second_value j v k w apart, resource_key_of)
      refl

-- The separators are not escaped: of two fields in order, the text `;k=w` at the end of the first
-- value or `w;k=` at the start of the second gives the same key for different resources.
pub resource_key_of_confuses :
    (j k u v w : String)
    → is_lt (compare k j) ≡ false
    → (j == k) ≡ false
    → resource_key_of (two_fields j (u +++ ";" +++ k +++ "=" +++ v) k w)
      ≡ resource_key_of (two_fields j u k (v +++ ";" +++ k +++ "=" +++ w))
resource_key_of_confuses j k u v w in_order apart =
    let left = resource_key_of_two j (u +++ ";" +++ k +++ "=" +++ v) k w in_order apart in
    let right = resource_key_of_two j u k (v +++ ";" +++ k +++ "=" +++ w) in_order apart in
    rw (left, right) (simp (append_assoc))
