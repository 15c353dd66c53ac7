-- ===== src/Decision/Words.antt =====
-- internal/core/decision/forbidden.go: the search for keywords, and who is denied for good.
use open_delo.Prelude.{
  ℕ, ◌+◌, ◌≤◌, ◌<◌, String, ◌≡◌, ◌≢◌, refl, inl, inr, Bool, true, false, ◌||◌, none, List, [], ◌∷◌,
  ◌++◌, any, All, ltb, arith, Bool-cases,
}
use open_delo.Prelude.Text.{codes, same_codes, byte_len, Letters}
use open_delo.Decision.Verdicts.{deny}
use open_delo.Decision.Forbidden.{
  longest_keyword, self_service, joined_hits, mentions_any, classify_forbidden,
}
use open_delo.Decision.FailClosed.{Input}
use open_delo.Decision.Engine.{decide}
use open_delo.Decision.Closed.{decide_deny_iff}

-- The joins of all runs of consecutive words.
joins_from : List ℕ → List (List ℕ) → List (List ℕ)
joins_from joined [] = []
joins_from joined (w ∷ ws) = (joined ++ w) ∷ joins_from (joined ++ w) ws

pub runs : List (List ℕ) → List (List ℕ)
unfolding joins_from
runs [] = []
runs (w ∷ ws) = joins_from [] (w ∷ ws) ++ runs ws

abbrev pub is_keyword : List String → List ℕ → Bool
is_keyword keywords word = any (λ k. same_codes word (codes k)) keywords

any-append :
    {A : Type 0} (p : A → Bool) (xs ys : List A) → any p (xs ++ ys) ≡ (any p xs || any p ys)
any-append p [] ys = refl
any-append p (x ∷ xs) ys = ground (arith, any-append p xs ys)

byte_len-append : (s t : List ℕ) → byte_len (s ++ t) ≡ byte_len s + byte_len t
byte_len-append [] t = omega arith
byte_len-append (c ∷ s) t = omega (arith, byte_len-append s t)

byte_len-same_codes : (s t : List ℕ) → same_codes s t ≡ true → byte_len s ≡ byte_len t
byte_len-same_codes [] [] h = refl
byte_len-same_codes [] (d ∷ t) h = cc
byte_len-same_codes (c ∷ s) [] h = cc
byte_len-same_codes (c ∷ s) (d ∷ t) h = ground (arith, byte_len-same_codes s t)

module _ (keywords : List String) where
  abbrev Short : List String → Type 0
  Short ks = All (λ k. byte_len (codes k) ≤ longest_keyword) ks

  long_is_no_keyword :
      (ks : List String) (w : List ℕ)
      → Short ks
      → longest_keyword < byte_len w
      → is_keyword ks w ≡ false
  long_is_no_keyword [] w short h = refl
  long_is_no_keyword (k ∷ ks) w short h =
      ground (arith, byte_len-same_codes w (codes k), long_is_no_keyword ks w short.1 h, short.0)

  long_joins :
      (joined : List ℕ) (ws : List (List ℕ))
      → Short keywords
      → longest_keyword < byte_len joined
      → any (is_keyword keywords) (joins_from joined ws) ≡ false
  unfolding joins_from
  long_joins joined [] short h = refl
  long_joins joined (w ∷ ws) short h =
      let longer : longest_keyword < byte_len (joined ++ w) =
        omega (arith, byte_len-append joined w) in
      rw (long_is_no_keyword keywords (joined ++ w) short longer)
        (long_joins (joined ++ w) ws short longer)

  joined_hits-joins :
      (joined : List ℕ) (ws : List (List ℕ))
      → Short keywords
      → joined_hits keywords joined ws ≡ any (is_keyword keywords) (joins_from joined ws)
  unfolding joined_hits joins_from
  joined_hits-joins joined [] short = refl
  joined_hits-joins joined (w ∷ ws) short =
      elim (Bool-cases (ltb longest_keyword (byte_len (joined ++ w)))) [
        | inl long ↦ rw (long, long_joins (joined ++ w) ws short (ground arith)) refl
        | inr fits ↦ rw (fits, joined_hits-joins (joined ++ w) ws short) refl
      ]

-- Stopping at the length of the longest keyword loses nothing: where no keyword is longer than
-- that, the search finds one exactly if the join of some run of consecutive words is one.
pub mentions_any-runs :
    (words : List (List ℕ)) (keywords : List String)
    → All (λ k. byte_len (codes k) ≤ longest_keyword) keywords
    → mentions_any words keywords ≡ any (is_keyword keywords) (runs words)
unfolding mentions_any runs
mentions_any-runs [] keywords short = refl
mentions_any-runs (w ∷ ws) keywords short = ground (
  arith,
  joined_hits-joins keywords [] (w ∷ ws) short,
  any-append (is_keyword keywords) (joins_from [] (w ∷ ws)) (runs ws),
  mentions_any-runs ws keywords short,
)

classify_self :
    (letters : Letters) (service operation : String)
    → letters.equal_fold service self_service ≡ true
    → classify_forbidden letters service operation ≢ none
unfolding classify_forbidden
classify_self letters service operation h = ground arith

-- Every request to OpenDelo's own service, in whatever letter case it is named, is denied, whatever
-- its operation and everything else about it.
pub decide-self_service :
    (letters : Letters) (i : Input)
    → letters.equal_fold i.scope.scope.service self_service ≡ true
    → (decide letters i).verdict ≡ deny
decide-self_service letters i h =
    (decide_deny_iff letters i).0.1
      (inr (classify_self letters i.scope.scope.service i.scope.scope.operation h))
