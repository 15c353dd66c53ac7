-- ===== src/Decision/Forbidden.antt =====
-- internal/core/decision/forbidden.go: the operations that are denied for good.
use open_delo.Prelude.{
  ℕ, String, Bool, false, ◌&&◌, ◌||◌, Option, none, some, List, [], ◌∷◌, ◌++◌, any, map, ltb,
  if◌then◌else◌,
}
use open_delo.Prelude.Text.{codes, same_number, same_codes, byte_len, Letters}

pub data Forbidden : Type 0 where
  credential_request vault_export privilege_escalation audit_disable self_configuration : Forbidden

abbrev pub self_service : String
self_service = "opendelo"

abbrev pub credential_nouns : List String
credential_nouns =
    "credential" ∷ "secret" ∷ "token" ∷ "apikey" ∷ "password" ∷ "privatekey" ∷ "passphrase" ∷ []

abbrev pub vault_nouns : List String
vault_nouns = "vault" ∷ "keychain" ∷ "keyring" ∷ []

abbrev pub read_verbs : List String
read_verbs =
    "read" ∷ "get" ∷ "export" ∷ "reveal" ∷ "show" ∷ "dump" ∷ "fetch" ∷ "download" ∷ "list"
    ∷ "unlock" ∷ []

abbrev pub audit_words : List String
audit_words = "audit" ∷ "ledger" ∷ []

abbrev pub privilege_words : List String
privilege_words =
    "scope" ∷ "permission" ∷ "privilege" ∷ "grant" ∷ "role" ∷ "policy" ∷ "lease" ∷ "trust"
    ∷ "approval" ∷ "automation" ∷ []

abbrev pub longest_keyword : ℕ
longest_keyword = byte_len (codes "privatekey")

-- The inner loop: the words so far joined, and those still to come.
unfoldable pub joined_hits : List String → List ℕ → List (List ℕ) → Bool
joined_hits keywords joined [] = false
joined_hits keywords joined (w ∷ ws) =
    let joined' = joined ++ w in
    any (λ k. same_codes joined' (codes k)) keywords
    || (if ltb longest_keyword (byte_len joined') then false else joined_hits keywords joined' ws)

unfoldable pub mentions_any : List (List ℕ) → List String → Bool
unfolding joined_hits
mentions_any [] keywords = false
mentions_any (w ∷ ws) keywords = joined_hits keywords [] (w ∷ ws) || mentions_any ws keywords

-- `-`, `_`, `.`, `/` and the space
abbrev pub is_boundary : ℕ → Bool
is_boundary c =
    same_number c b'-'
    || same_number c b'_'
    || same_number c b'.'
    || same_number c b'/'
    || same_number c b' '

-- A word without its last letter where that is an `s`.
unfoldable pub trim_s : List ℕ → List ℕ
trim_s [] = []
trim_s (c ∷ []) = if same_number c b's' then [] else c ∷ []
trim_s (c ∷ d ∷ s) = c ∷ trim_s (d ∷ s)

module _ (letters : Letters) where
  unfoldable pub flush : List ℕ → List (List ℕ)
  unfolding trim_s
  flush [] = []
  flush (c ∷ s) =
      let word = map letters.to_lower (c ∷ s) in
      (if ltb 3 (byte_len word) then trim_s word else word) ∷ []

  -- One letter: the words that it ends, and what is current after it.
  unfoldable pub scan_letter : List ℕ → ℕ → List (List ℕ) × List ℕ
  unfolding flush
  scan_letter current c =
      if is_boundary c
      then (flush current, [])
      else if letters.is_upper c
      then (flush current, c ∷ [])
      else ([], current ++ c ∷ [])

  unfoldable pub segments_from : List ℕ → List ℕ → List (List ℕ)
  unfolding scan_letter
  segments_from current [] = flush current
  segments_from current (c ∷ cs) =
      let (ended, current') = scan_letter current c in ended ++ segments_from current' cs

  unfoldable pub segments_of : String → List (List ℕ)
  unfolding segments_from
  segments_of operation = segments_from [] (codes operation)

  -- The switch of `classifyForbidden`.
  unfoldable pub classify_forbidden : String → String → Option Forbidden
  classify_forbidden service operation =
      let words = segments_of operation in
      let reading = mentions_any words read_verbs in
      if reading && mentions_any words vault_nouns
      then some vault_export
      else if reading && mentions_any words credential_nouns
      then some credential_request
      else if letters.equal_fold service self_service
      then (if mentions_any words audit_words
          then some audit_disable
          else if mentions_any words privilege_words
          then some privilege_escalation
          else some self_configuration)
      else none
