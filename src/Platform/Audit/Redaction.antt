-- ===== src/Platform/Audit/Redaction.antt =====
-- internal/platform/audit/redact.go: what of a JSON text reaches the audit trail. A text in a JSON value
-- is the list of its bytes; reading and writing JSON is the parameter `Json`.
use open_delo.Prelude.{
  ℕ, String, Bool, ◌||◌, not, Option, none, some, List, [], ◌∷◌, ◌++◌, map, any, keep, take, length,
  ltb, if◌then◌else◌,
}
use open_delo.Prelude.Text.{codes, same_number, contains, Letters}
use open_delo.Platform.AppError.{Result, ok, err, ◌>>=◌, invalid_request, internal}

-- What `encoding/json` reads into an `any`: a `map[string]any` by its entries, a `[]any`, a number by
-- its digits.
mutual
  pub data Entries : Type 0 where
    no_entries : Entries
    entry : String → Value → Entries → Entries

  pub data Value : Type 0 where
    object : Entries → Value
    slice : Slice → Value
    text : List ℕ → Value
    number : String → Value
    flag : Bool → Value
    null : Value

  pub data Slice : Type 0 where
    no_elements : Slice
    element : Value → Slice → Slice

-- `json.Unmarshal` and `json.Marshal`; `none` is an error.
pub record Json : Type 0 where
  pub parse : String → Option Value
  pub print : Value → Option String

abbrev pub redacted : Value
redacted = text (codes "[redacted]")

abbrev pub max_metadata_value_length : ℕ
max_metadata_value_length = 512

-- The bytes of "…[truncated]".
abbrev pub truncated : List ℕ
truncated = 226 ∷ 128 ∷ 166 ∷ codes "[truncated]"

abbrev pub sensitive_key_words : List String
sensitive_key_words =
    "authorization" ∷ "cookie" ∷ "set-cookie" ∷ "token" ∷ "api_key" ∷ "apikey" ∷ "password"
    ∷ "secret" ∷ "private_key" ∷ "credential" ∷ []

-- "-", "_" and "."
unfoldable pub is_separator : ℕ → Bool
is_separator c = same_number c 45 || same_number c 95 || same_number c 46

module _ (letters : Letters) where
  unfoldable pub normalize_key : String → List ℕ
  unfolding is_separator
  normalize_key key = keep (λ c. not (is_separator c)) (map letters.to_lower (codes key))

  unfoldable pub is_sensitive_key : String → Bool
  unfolding normalize_key
  is_sensitive_key key =
      any (λ word. contains (normalize_key key) (normalize_key word)) sensitive_key_words

  unfoldable mutual
    pub redact_value : Value → Value
    redact_value null = null
    redact_value (flag b) = flag b
    redact_value (number n) = number n
    redact_value (text s) = text s
    redact_value (slice vs) = slice (redact_slice vs)
    redact_value (object fs) = object (redact_entries fs)

    pub redact_slice : Slice → Slice
    redact_slice no_elements = no_elements
    redact_slice (element v vs) = element (redact_value v) (redact_slice vs)

    pub redact_entries : Entries → Entries
    redact_entries no_entries = no_entries
    redact_entries (entry key v fs) =
        let nested = redact_value v in
        let rest = redact_entries fs in
        entry key (if is_sensitive_key key then redacted else nested) rest

  -- An object is asked for.
  unfoldable pub redact_object : Value → Result Value
  unfolding redact_value
  redact_object (object fs) = ok (redact_value (object fs))
  redact_object _ = err invalid_request

  unfoldable pub flat_metadata_value : Value → Result Value
  flat_metadata_value (text s) =
      if ltb max_metadata_value_length (length s)
      then ok (text (take max_metadata_value_length s ++ truncated))
      else ok (text s)
  flat_metadata_value (slice vs) = err invalid_request
  flat_metadata_value (object fs) = err invalid_request
  flat_metadata_value v = ok v

  unfoldable pub redact_flat : Entries → Result Entries
  unfolding flat_metadata_value
  redact_flat no_entries = ok no_entries
  redact_flat (entry key v fs) = do
    scalar ← (if is_sensitive_key key then ok redacted else flat_metadata_value v)
    rest ← redact_flat fs
    ok (entry key scalar rest)

  -- A map is asked for; `null` is the empty one.
  unfoldable pub flat_object : Value → Result Value
  unfolding redact_flat
  flat_object null = ok (object no_entries)
  flat_object (object fs) = do rest ← redact_flat fs; ok (object rest)
  flat_object _ = err invalid_request

  module _ (json : Json) where
    unfoldable pub parsed : String → Result Value
    parsed source = elim (json.parse source) [ none ↦ err invalid_request | some v ↦ ok v ]

    unfoldable pub printed : Value → Result String
    printed v = elim (json.print v) [ none ↦ err internal | some s ↦ ok s ]

    unfoldable pub redact_json_object : String → Result String
    unfolding parsed printed redact_object
    redact_json_object source = do v ← parsed source; clean ← redact_object v; printed clean

    unfoldable pub redact_metadata : String → Result String
    unfolding parsed printed flat_object
    redact_metadata source = do v ← parsed source; clean ← flat_object v; printed clean
