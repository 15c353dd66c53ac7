-- ===== src/Platform/AppError.antt =====
-- internal/platform/apperr: the error codes. An error is modelled by its code; the free-text detail
-- and the cause chain reach only the logs, and no code path branches on them.
use open_delo.Prelude.{◌≡◌, refl, ◌⊎◌, inl, inr, Bool, true, false, if◌then◌else◌}

-- code.go: the registered codes, in the order of the file.
pub data Code : Type 0 where
  invalid_request unauthenticated forbidden not_found conflict internal : Code
  not_implemented invalid_configuration agent_identity_unverifiable session_expired : Code
  capability_not_offered approval_timeout credential_not_authorized provider_unavailable : Code
  provider_not_supported_on_platform provider_locked_timeout vault_locked : Code
  path_not_allowed adapter_timeout gateway_unavailable : Code

-- A Go function that returns a value with an `error`.
pub data Result {ℓ} (Value : Type ℓ) : Type ℓ where
  err : Code → Result Value
  ok : Value → Result Value

pub Result-cases {ℓ} :
    {Value : Type ℓ} (r : Result Value)
    → ((v : Value) × (r ≡ ok v)) ⊎ ((code : Code) × (r ≡ err code))
Result-cases (err code) = inr (code, refl)
Result-cases (ok v) = inl (v, refl)

-- `err == nil`
abbrev pub is_ok {ℓ} : {Value : Type ℓ} → Result Value → Bool
is_ok (err code) = false
is_ok (ok v) = true

-- `apperr.Is(err, apperr.CodeNotFound)`
unfoldable pub is_not_found : Code → Bool
is_not_found not_found = true
is_not_found _ = false

-- `if !test { return err }`
abbrev pub ensure : Bool → Code → Result (Unit {0})
ensure test code = if test then ok tt else err code

-- `if err != nil { return err }` between two calls
infixl 20 ◌>>=◌ ◌>>◌
abbrev pub ◌>>=◌ {κ ℓ} :
    {Before : Type κ} {After : Type ℓ} → Result Before → (Before → Result After) → Result After
(err code) >>= next = err code
(ok v) >>= next = next v

abbrev pub ◌>>◌ {ℓ} : {After : Type ℓ} → Result (Unit {0}) → Result After → Result After
(err code) >> r = err code
(ok v) >> r = r
