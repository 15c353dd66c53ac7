-- ===== src/Prelude/Text.antt =====
-- Texts as lists of code points, and what Go's `unicode` and `strings` packages are asked for.
use Prim.Native.Char.{code}
use Prim.Native.Nat.{ℕ, ◌+◌, compare, Ordering}
use Prim.Native.String.{String}
use mathlib.Core.Bool.{Bool, true, false, ◌&&◌, ◌||◌}
use mathlib.Core.List.{List, [], ◌∷◌}
use open_delo.Prelude.Tests.{ltb, if◌then◌else◌}

abbrev pub codes : String → List ℕ
codes String.[] = []
codes (String.◌∷◌ c s) = code c ∷ codes s

abbrev pub same_number : ℕ → ℕ → Bool
same_number m n = elim (compare m n) [ Ordering.eq ↦ true | _ ↦ false ]

abbrev pub same_codes : List ℕ → List ℕ → Bool
same_codes [] [] = true
same_codes (c ∷ s) (d ∷ t) = same_number c d && same_codes s t
same_codes _ _ = false

-- `strings.HasPrefix` and `strings.Contains`
abbrev pub starts : List ℕ → List ℕ → Bool
starts s [] = true
starts [] (c ∷ w) = false
starts (d ∷ s) (c ∷ w) = same_number d c && starts s w

abbrev pub contains : List ℕ → List ℕ → Bool
contains [] w = starts [] w
contains (d ∷ s) w = starts (d ∷ s) w || contains s w

-- The bytes of a code point, and of a text, in UTF-8: Go's `len`.
abbrev pub code_bytes : ℕ → ℕ
code_bytes c = if ltb c 128 then 1 else if ltb c 2048 then 2 else if ltb c 65536 then 3 else 4

abbrev pub byte_len : List ℕ → ℕ
byte_len [] = 0
byte_len (c ∷ s) = code_bytes c + byte_len s

-- The lower case of a code point, whether it is upper case, and `strings.EqualFold`.
pub record Letters : Type 0 where
  pub to_lower : ℕ → ℕ
  pub is_upper : ℕ → Bool
  pub equal_fold : String → String → Bool
