-- ===== src/Examples/Audits.antt =====
-- Runs of internal/platform/audit on concrete inputs.
use open_delo.Prelude.{any, ◌≡◌, refl, true, none, some, [], ◌∷◌, ◌==◌, if◌then◌else◌}
use open_delo.Prelude.Int.{pos}
use open_delo.Prelude.Text.{codes}
use open_delo.Platform.AppError.{invalid_request, ok, err}
use open_delo.Examples.Samples.{ascii}
use open_delo.Platform.Audit.Redaction.{
  Value, Entries, text, slice, object, no_elements, element, no_entries, entry, Json, redacted,
  redact_value, is_sensitive_key, normalize_key, is_separator, redact_json_object, redact_metadata,
  redact_object, parsed, printed, flat_object, redact_flat, flat_metadata_value,
}
use open_delo.Platform.Audit.Hiding.{
  key, index, reach, child, entry_of, element_of, is_secret, reach-hides,
}
use open_delo.Platform.Audit.Recorder.{Event, record_event, checked, prepare, is_registered}
use open_delo.Platform.Audit.Recording.{Recorded, record_event-Recorded}
use open_delo.Platform.Audit.Flat.{is_flat, redact_metadata-flat}

-- {"repo": "app", "calls": [{"api_key": "k1", "n": 2}]}
abbrev call : Value
call = object (
    entry "repo" (text (codes "app")) (
      entry "calls"
        (slice (
          element
            (object (entry "api_key" (text (codes "k1")) (entry "n" (Value.number "2") no_entries)))
            no_elements))
        no_entries))

abbrev flat : Value
flat = object (entry "token" (text (codes "k1")) (entry "status" (Value.number "200") no_entries))

-- A reader that knows two texts, and a printer that tells what it got.
abbrev json : Json
json = record {
  parse = λ s. if s == "call" then some call else if s == "flat" then some flat else none;
  print = λ v. some "printed";
}

abbrev event : Event
event = record {
  id = "forged";
  operation_id = "op1";
  event_type = "adapter.executed";
  agent_id = "a1";
  device_id = "d1";
  workspace_id = "w1";
  identity_id = "i1";
  credential_provider_id = "p1";
  service = "github";
  operation = "repo.read";
  resource = "call";
  resolved_scope = "call";
  verdict = "allow";
  risk_level = "low";
  decision_id = "";
  approval_id = "";
  lease_id = "l1";
  lease_status = "active";
  outcome = "succeeded";
  response_status = pos 200;
  duration = pos 12;
  is_redacted = true;
  metadata = "flat";
  created_at = 1;
}

abbrev kept : Event
kept = record event {
  id = "e1";
  created_at = 90;
  resource = "printed";
  resolved_scope = "printed";
  metadata = "printed";
}

secret_path : any (is_secret ascii) (key "calls" ∷ index 0 ∷ key "api_key" ∷ []) ≡ true
unfolding is_secret is_sensitive_key normalize_key is_separator
secret_path = refl

found : reach (key "calls" ∷ index 0 ∷ key "api_key" ∷ []) (redact_value ascii call) ≡ some redacted
unfolding reach child entry_of element_of redact_value is_sensitive_key normalize_key is_separator
found = refl

reach-hides_example : redacted ≡ redacted
reach-hides_example =
    reach-hides ascii (key "calls" ∷ index 0 ∷ key "api_key" ∷ []) call redacted secret_path found

-- The value beside the key of the API is kept.
number_kept :
    reach (key "calls" ∷ index 0 ∷ key "n" ∷ []) (redact_value ascii call) ≡ some (Value.number "2")
unfolding reach child entry_of element_of redact_value is_sensitive_key normalize_key is_separator
number_kept = refl

metadata_written : redact_metadata ascii json "flat" ≡ ok "printed"
unfolding redact_metadata parsed printed flat_object redact_flat flat_metadata_value
    is_sensitive_key normalize_key is_separator
metadata_written = refl

-- A nested value is refused.
metadata_refused : redact_metadata ascii json "call" ≡ err invalid_request
unfolding redact_metadata parsed printed flat_object redact_flat flat_metadata_value
    is_sensitive_key normalize_key is_separator
metadata_refused = refl

redact_metadata-flat_example :
    (fs : Entries) × (json.print (object fs) ≡ some "printed") × (is_flat ascii fs ≡ true)
redact_metadata-flat_example = redact_metadata-flat ascii json "flat" "printed" metadata_written

appended : (record_event ascii json ok (some "e1") 90 event).0 ≡ some kept
unfolding record_event checked prepare is_registered redact_json_object redact_object redact_value
    redact_metadata parsed printed flat_object redact_flat flat_metadata_value is_sensitive_key
    normalize_key is_separator
appended = refl

record_event-Recorded_example :
    Recorded ascii json (some "e1") 90 event kept
    × ((record_event ascii json ok (some "e1") 90 event).1 ≡ ok kept)
record_event-Recorded_example =
    record_event-Recorded ascii json ok (some "e1") 90 event kept appended

-- Without an operation, or of an unknown type, nothing is appended.
unappended :
    (record_event ascii json ok (some "e1") 90 (record event { operation_id = "" })).0 ≡ none
unfolding record_event checked is_registered
unappended = refl
