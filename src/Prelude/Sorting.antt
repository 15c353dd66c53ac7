-- ===== src/Prelude/Sorting.antt =====
-- `sort.Strings` and `strings.Join` of the Go library.
use Prim.Native.String.{String, compare}
use text.Mathlib.Text.{is_lt}
use mathlib.Core.Path.{subst}
use mathlib.Core.Bool.{Bool}
use mathlib.Core.Logic.{◌↔◌, inl, inr}
use mathlib.Core.List.{List, [], ◌∷◌, Memᴰ}
use mathlib.Core.List.Memᴰ
use open_delo.Prelude.Tests.{if◌then◌else◌, Bool-cases}

-- `sort.Strings`: by the bytes of the texts, which is the order of their code points.
unfoldable pub insert_string : String → List String → List String
insert_string s [] = s ∷ []
insert_string s (t ∷ ts) = if is_lt (compare t s) then t ∷ insert_string s ts else s ∷ t ∷ ts

unfoldable pub sort_strings : List String → List String
unfolding insert_string
sort_strings [] = []
sort_strings (s ∷ ss) = insert_string s (sort_strings ss)

-- `s + t`
infixr 65 ◌+++◌
abbrev pub ◌+++◌ : String → String → String
String.[] +++ t = t
(String.◌∷◌ c s) +++ t = String.◌∷◌ c (s +++ t)

-- `strings.Join`
unfoldable pub join : String → List String → String
join separator [] = ""
join separator (s ∷ []) = s
join separator (s ∷ t ∷ ts) = s +++ separator +++ join separator (t ∷ ts)

insert_string_mem :
    (s a : String) (ts : List String) → Memᴰ a (insert_string s ts) → Memᴰ a (s ∷ ts)
unfolding insert_string
insert_string_mem s a [] m = m
insert_string_mem s a (t ∷ ts) m = elim (Bool-cases (is_lt (compare t s))) [
  | inl e ↦ elim (Memᴰ.cases_cons (subst (Memᴰ a) (rw e) m)) [
    | inl same ↦ Memᴰ.tail (Memᴰ.head same)
    | inr m' ↦ elim (Memᴰ.cases_cons (insert_string_mem s a ts m')) [
      | inl same ↦ Memᴰ.head same
      | inr m'' ↦ Memᴰ.tail (Memᴰ.tail m'')
    ]
  ]
  | inr e ↦ subst (Memᴰ a) (rw e) m
]

mem_insert_string :
    (s a : String) (ts : List String) → Memᴰ a (s ∷ ts) → Memᴰ a (insert_string s ts)
unfolding insert_string
mem_insert_string s a [] m = m
mem_insert_string s a (t ∷ ts) m = elim (Bool-cases (is_lt (compare t s))) [
  | inl e ↦
      rw (e, insert_string)
        (elim (Memᴰ.cases_cons m) [
          | inl same ↦ Memᴰ.tail (mem_insert_string s a ts (Memᴰ.head same))
          | inr m' ↦ elim (Memᴰ.cases_cons m') [
            | inl same ↦ Memᴰ.head same
            | inr m'' ↦ Memᴰ.tail (mem_insert_string s a ts (Memᴰ.tail m''))
          ]
        ])
  | inr e ↦ rw (e, insert_string) m
]

pub sort_strings_mem : (a : String) (ss : List String) → Memᴰ a (sort_strings ss) ↔ Memᴰ a ss
unfolding sort_strings
sort_strings_mem a [] = (λ m. m, λ m. m)
sort_strings_mem a (s ∷ ss) = (
  λ m. elim (Memᴰ.cases_cons (insert_string_mem s a (sort_strings ss) m)) [
    | inl same ↦ Memᴰ.head same
    | inr m' ↦ Memᴰ.tail ((sort_strings_mem a ss).0 m')
  ],
  λ m. mem_insert_string s a (sort_strings ss) (elim (Memᴰ.cases_cons m) [
    | inl same ↦ Memᴰ.head same
    | inr m' ↦ Memᴰ.tail ((sort_strings_mem a ss).1 m')
  ]),
)

-- `t > s`
abbrev pub is_later : String → String → Bool
is_later t s = is_lt (compare s t)
