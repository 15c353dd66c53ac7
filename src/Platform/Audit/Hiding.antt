-- ===== src/Platform/Audit/Hiding.antt =====
-- internal/platform/audit/redact.go: what can be reached in a redacted value.
use open_delo.Prelude.{
  ℕ, zero, suc, String, ◌≡◌, refl, ap, inl, inr, Bool, true, false, Option, none, some, List, [],
  ◌∷◌, any, arith, eq_iff, Bool-cases, Option-cases, contradiction, if◌then◌else◌, ◌==◌,
}
use open_delo.Prelude.Text.{Letters}
use open_delo.Platform.Audit.Redaction.{
  Value, Slice, Entries, text, slice, object, no_elements, element, no_entries, entry, redacted,
  is_sensitive_key, redact_value, redact_slice, redact_entries,
}

-- A step into a value, a path of steps, and what it leads to.
pub data Step : Type 0 where
  key : String → Step
  index : ℕ → Step

unfoldable pub entry_of : String → Entries → Option Value
entry_of k no_entries = none
entry_of k (entry name v fs) = let rest = entry_of k fs in if name == k then some v else rest

unfoldable pub element_of : ℕ → Slice → Option Value
element_of n no_elements = none
element_of zero (element v vs) = some v
element_of (suc n) (element v vs) = element_of n vs

unfoldable pub child : Step → Value → Option Value
unfolding entry_of element_of
child (key k) (object fs) = entry_of k fs
child (index n) (slice vs) = element_of n vs
child _ _ = none

unfoldable pub reach : List Step → Value → Option Value
reach [] v = some v
reach (s ∷ path) v = elim (child s v) [ none ↦ none | some w ↦ reach path w ]

abbrev pub map_option : (Value → Value) → Option Value → Option Value
map_option f none = none
map_option f (some v) = some (f v)

module _ (letters : Letters) where
  unfoldable pub is_secret : Step → Bool
  is_secret (key k) = is_sensitive_key letters k
  is_secret (index n) = false

  -- What a step into a redacted value finds.
  hidden_at : Step → Value → Value
  hidden_at s v = if is_secret s then redacted else redact_value letters v

  entry_of-redact_entries :
      (k : String) (fs : Entries)
      → entry_of k (redact_entries letters fs) ≡ map_option (hidden_at (key k)) (entry_of k fs)
  unfolding entry_of redact_entries hidden_at is_secret
  entry_of-redact_entries k no_entries = refl
  entry_of-redact_entries k (entry name v fs) = elim (Bool-cases (name == k)) [
    | inl e ↦ let same : name ≡ k = (eq_iff name k).0 e in rw (e, same) refl
    | inr e ↦ rw e (entry_of-redact_entries k fs)
  ]

  element_of-redact_slice :
      (n : ℕ) (vs : Slice)
      → element_of n (redact_slice letters vs) ≡ map_option (redact_value letters) (element_of n vs)
  unfolding element_of redact_slice
  element_of-redact_slice n no_elements = refl
  element_of-redact_slice zero (element v vs) = refl
  element_of-redact_slice (suc n) (element v vs) = element_of-redact_slice n vs

  child-redact_value :
      (s : Step) (v : Value)
      → child s (redact_value letters v) ≡ map_option (hidden_at s) (child s v)
  unfolding child redact_value hidden_at is_secret
  child-redact_value (key k) (object fs) = entry_of-redact_entries k fs
  child-redact_value (index n) (slice vs) = element_of-redact_slice n vs
  child-redact_value (key k) Value.null = refl
  child-redact_value (key k) (Value.flag b) = refl
  child-redact_value (key k) (Value.number n) = refl
  child-redact_value (key k) (text s) = refl
  child-redact_value (key k) (slice vs) = refl
  child-redact_value (index n) Value.null = refl
  child-redact_value (index n) (Value.flag b) = refl
  child-redact_value (index n) (Value.number m) = refl
  child-redact_value (index n) (text s) = refl
  child-redact_value (index n) (object fs) = refl

  reach-redacted : (path : List Step) (w : Value) → reach path redacted ≡ some w → w ≡ redacted
  unfolding reach child
  reach-redacted [] w h = ground (arith, h)
  reach-redacted (key k ∷ path) w h = ground (arith, h)
  reach-redacted (index n ∷ path) w h = ground (arith, h)

  -- Whatever a path leads to in a redacted value is the text "[redacted]", where the path takes a
  -- sensitive key.
  pub reach-hides :
      (path : List Step) (v w : Value)
      → any is_secret path ≡ true
      → reach path (redact_value letters v) ≡ some w
      → w ≡ redacted
  unfolding reach hidden_at
  reach-hides [] v w secret h = ground (arith, secret)
  reach-hides (s ∷ path) v w secret h = elim (Option-cases (child s v)) [
    | inl e ↦ contradiction (ground (arith, h, e, child-redact_value s v))
    | inr (u, e) ↦ elim (Bool-cases (is_secret s)) [
      | inl here ↦ reach-redacted path w (ground (arith, h, e, here, child-redact_value s v))
      | inr later ↦
          reach-hides path u w (ground (arith, secret, later))
            (ground (arith, h, e, later, child-redact_value s v))
    ]
  ]

  -- Along a path without a sensitive key, a redacted value has what the value has, redacted.
  pub reach-keeps :
      (path : List Step) (v : Value)
      → any is_secret path ≡ false
      → reach path (redact_value letters v) ≡ map_option (redact_value letters) (reach path v)
  unfolding reach hidden_at
  reach-keeps [] v open_path = refl
  reach-keeps (s ∷ path) v open_path = elim (Option-cases (child s v)) [
    | inl e ↦ rw (child-redact_value s v, e, reach) refl
    | inr (u, e) ↦
        let here : is_secret s ≡ false = ground (arith, open_path) in
        rw (child-redact_value s v, e, here, reach) (reach-keeps path u (ground (arith, open_path)))
  ]

  -- To redact twice is to redact once.
  mutual
    unfolding redact_value

    pub redact_value-twice :
        (v : Value) → redact_value letters (redact_value letters v) ≡ redact_value letters v
    redact_value-twice Value.null = refl
    redact_value-twice (Value.flag b) = refl
    redact_value-twice (Value.number n) = refl
    redact_value-twice (text s) = refl
    redact_value-twice (slice vs) = ap slice (slice_twice vs)
    redact_value-twice (object fs) = ap object (entries_twice fs)

    slice_twice :
        (vs : Slice) → redact_slice letters (redact_slice letters vs) ≡ redact_slice letters vs
    slice_twice no_elements = refl
    slice_twice (element v vs) = rw (redact_value-twice v, slice_twice vs) refl

    entries_twice :
        (fs : Entries)
        → redact_entries letters (redact_entries letters fs) ≡ redact_entries letters fs
    entries_twice no_entries = refl
    entries_twice (entry k v fs) = elim (Bool-cases (is_sensitive_key letters k)) [
      | inl e ↦ rw (e, entries_twice fs) refl
      | inr e ↦ rw (e, redact_value-twice v, entries_twice fs) refl
    ]
