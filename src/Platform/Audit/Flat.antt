-- ===== src/Platform/Audit/Flat.antt =====
-- internal/platform/audit/redact.go: what is in the metadata of an event.
use open_delo.Prelude.{
  ℕ, zero, suc, ◌+◌, ◌≡◌, ◌≤◌, refl, inl, inr, String, Bool, true, false, ◌&&◌, some, List, [], ◌∷◌,
  ◌++◌, length, take, ltb, leb, le→leb, if◌then◌else◌, arith, Bool-cases, subst, contradiction,
}
use open_delo.Prelude.Text.{codes, same_codes, Letters}
use open_delo.Platform.AppError.{ok, ◌>>=◌}
use open_delo.Platform.Audit.Redaction.{
  Value, Entries, text, slice, object, no_entries, entry, Json, redacted, truncated,
  max_metadata_value_length, is_sensitive_key, flat_metadata_value, redact_flat, flat_object,
  parsed, printed, redact_metadata,
}
use open_delo.Platform.Audit.Recording.{bind-ok}

not_longer : (m n : ℕ) → ltb m n ≡ false → n ≤ m
not_longer m n h = ground arith

length-take : {A : Type 0} (n : ℕ) (xs : List A) → length (take n xs) ≤ n
length-take zero xs = omega arith
length-take (suc n) [] = omega arith
length-take (suc n) (x ∷ xs) = let shorter = length-take n xs in omega arith

length-append : {A : Type 0} (xs ys : List A) → length (xs ++ ys) ≡ length xs + length ys
length-append [] ys = ground arith
length-append (x ∷ xs) ys = let rest = length-append xs ys in omega arith

-- A value that is no slice and no object, and no text of more bytes than the longest one with the mark.
unfoldable pub is_short : Value → Bool
is_short (text s) = leb (length s) (max_metadata_value_length + length truncated)
is_short (slice vs) = false
is_short (object fs) = false
is_short _ = true

unfoldable pub is_redacted_text : Value → Bool
is_redacted_text (text s) = same_codes s (codes "[redacted]")
is_redacted_text _ = false

module _ (letters : Letters) where
  -- Each value under a sensitive key is the text "[redacted]", each other one is short.
  unfoldable pub is_flat : Entries → Bool
  unfolding is_short is_redacted_text
  is_flat no_entries = true
  is_flat (entry key v fs) =
      (if is_sensitive_key letters key then is_redacted_text v else is_short v) && is_flat fs

  cut_short : (s : List ℕ) → is_short (text (take max_metadata_value_length s ++ truncated)) ≡ true
  unfolding is_short
  cut_short s =
      let shorter = length-take max_metadata_value_length s in
      le→leb _ _ (rw (length-append (take max_metadata_value_length s) truncated) (omega arith))

  flat_metadata_value-short :
      (v w : Value) → flat_metadata_value letters v ≡ ok w → is_short w ≡ true
  unfolding flat_metadata_value is_short
  flat_metadata_value-short (text s) w h =
      elim (Bool-cases (ltb max_metadata_value_length (length s))) [
        | inl e ↦
            let same : text (take max_metadata_value_length s ++ truncated) ≡ w =
              ground (arith, h, e) in
            subst (λ w. is_short w ≡ true) same (cut_short s)
        | inr e ↦
            let same : text s ≡ w = ground (arith, h, e) in
            let within = not_longer max_metadata_value_length (length s) e in
            subst (λ w. is_short w ≡ true) same (le→leb _ _ (omega arith))
      ]
  flat_metadata_value-short (slice vs) w h = contradiction (ground (arith, h))
  flat_metadata_value-short (object fs) w h = contradiction (ground (arith, h))
  flat_metadata_value-short Value.null w h = ground (arith, h)
  flat_metadata_value-short (Value.flag b) w h = ground (arith, h)
  flat_metadata_value-short (Value.number n) w h = ground (arith, h)

  flat_entry :
      (key : String) (v scalar : Value) (rest : Entries)
      → (if is_sensitive_key letters key then ok redacted else flat_metadata_value letters v)
        ≡ ok scalar
      → is_flat rest ≡ true
      → is_flat (entry key scalar rest) ≡ true
  unfolding is_flat is_redacted_text
  flat_entry key v scalar rest made fine = elim (Bool-cases (is_sensitive_key letters key)) [
    | inl e ↦
        let hidden : redacted ≡ scalar = ground (arith, made, e) in rw (e, fine, ← hidden) refl
    | inr e ↦
        let short = flat_metadata_value-short v scalar (ground (arith, made, e)) in
        rw (e, fine, short) refl
  ]

  redact_flat-flat : (fs out : Entries) → redact_flat letters fs ≡ ok out → is_flat out ≡ true
  unfolding redact_flat is_flat
  redact_flat-flat no_entries out h = ground (arith, h)
  redact_flat-flat (entry key v fs) out h =
      let (scalar, made, h1) =
        bind-ok
          (if is_sensitive_key letters key then ok redacted else flat_metadata_value letters v)
          (λ scalar. redact_flat letters fs >>= (λ rest. ok (entry key scalar rest))) out h in
      let (rest, later, h2) =
        bind-ok (redact_flat letters fs) (λ rest. ok (entry key scalar rest)) out h1 in
      let whole : entry key scalar rest ≡ out = ground (arith, h2) in
      let fine = redact_flat-flat fs rest later in
      subst (λ fs. is_flat fs ≡ true) whole (flat_entry key v scalar rest made fine)

  flat_object-flat :
      (v out : Value)
      → flat_object letters v ≡ ok out
      → (fs : Entries) × (out ≡ object fs) × (is_flat fs ≡ true)
  unfolding flat_object is_flat
  flat_object-flat Value.null out h = (no_entries, ground (arith, h), refl)
  flat_object-flat (object fs) out h =
      let (rest, made, h1) = bind-ok _ _ out h in
      (rest, ground (arith, h1), redact_flat-flat fs rest made)
  flat_object-flat (text s) out h = contradiction (ground (arith, h))
  flat_object-flat (slice vs) out h = contradiction (ground (arith, h))
  flat_object-flat (Value.flag b) out h = contradiction (ground (arith, h))
  flat_object-flat (Value.number n) out h = contradiction (ground (arith, h))

  printed-some :
      (json : Json) (v : Value) (out : String)
      → printed letters json v ≡ ok out
      → json.print v ≡ some out
  unfolding printed
  printed-some json v out h = ground (arith, h)

  -- The metadata that is written is the printed form of a JSON object in which each value under a
  -- sensitive key is the text "[redacted]", and each other one is neither a slice nor an object, nor a
  -- text of more than 526 bytes.
  pub redact_metadata-flat :
      (json : Json) (source out : String)
      → redact_metadata letters json source ≡ ok out
      → (fs : Entries) × (json.print (object fs) ≡ some out) × (is_flat fs ≡ true)
  unfolding redact_metadata
  redact_metadata-flat json source out h =
      let (v, read, h1) =
        bind-ok (parsed letters json source) (λ v. flat_object letters v >>= printed letters json)
          out h in
      let (clean, made, h2) = bind-ok (flat_object letters v) (printed letters json) out h1 in
      let (fs, whole, flat) = flat_object-flat v clean made in
      (fs, subst (λ v. json.print v ≡ some out) whole (printed-some json clean out h2), flat)
