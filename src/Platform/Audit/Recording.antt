-- ===== src/Platform/Audit/Recording.antt =====
-- internal/platform/audit/recorder.go: what reaches the audit trail.
use open_delo.Prelude.{
  true, false, subst, ℕ, String, Bool, not, Option, none, some, ◌==◌, ◌≡◌, refl, inl, inr, arith,
  contradiction, ap, Option-cases,
}
use open_delo.Prelude.Text.{Letters}
use open_delo.Platform.AppError.{Code, Result, ok, err, ensure, ◌>>=◌, ◌>>◌, internal, Result-cases}
use open_delo.Platform.Audit.Redaction.{
  Value, Entries, object, Json, parsed, printed, redact_value, redact_object, redact_json_object,
  redact_metadata,
}
use open_delo.Platform.Audit.Recorder.{Event, is_registered, prepare, checked, record_event}

pub bind-ok :
    {A B : Type 0} (r : Result A) (next : A → Result B) (b : B)
    → (r >>= next) ≡ ok b
    → (a : A) × (r ≡ ok a) × (next a ≡ ok b)
bind-ok (err code) next b h = ground arith
bind-ok (ok a) next b h = (a, refl, h)

ensure-ok :
    {B : Type 0} (test : Bool) (code : Code) (r : Result B) (b : B)
    → (ensure test code >> r) ≡ ok b
    → (test ≡ true) × (r ≡ ok b)
ensure-ok true code r b h = (refl, h)
ensure-ok false code r b h = ground arith

abbrev made : Event → String → ℕ → String → String → String → Event
made event id now resource resolved_scope metadata = record event {
  id = id;
  created_at = now;
  resource = resource;
  resolved_scope = resolved_scope;
  metadata = metadata;
}

module _ (letters : Letters) (json : Json) where
  -- The JSON text of an object that was read and redacted.
  pub record Hidden (source out : String) : Type 0 where
    pub entries : Entries
    pub read : json.parse source ≡ some (object entries)
    pub written : json.print (redact_value letters (object entries)) ≡ some out

  redact_object-Hidden :
      (source out : String) (v : Value)
      → json.parse source ≡ some v
      → (redact_object letters v >>= printed letters json) ≡ ok out
      → Hidden source out
  unfolding redact_object printed
  redact_object-Hidden source out (object fs) e h = record {
    entries = fs;
    read = e;
    written = ground (arith, h);
  }
  redact_object-Hidden source out Value.null e h = contradiction (ground (arith, h))
  redact_object-Hidden source out (Value.flag b) e h = contradiction (ground (arith, h))
  redact_object-Hidden source out (Value.number n) e h = contradiction (ground (arith, h))
  redact_object-Hidden source out (Value.text s) e h = contradiction (ground (arith, h))
  redact_object-Hidden source out (Value.slice vs) e h = contradiction (ground (arith, h))

  redact_json_object-Hidden :
      (source out : String) → redact_json_object letters json source ≡ ok out → Hidden source out
  unfolding redact_json_object parsed
  redact_json_object-Hidden source out h = elim (Option-cases (json.parse source)) [
    | inl e ↦ contradiction (ground (arith, h, e))
    | inr (v, e) ↦ redact_object-Hidden source out v e (rw (e, redact_json_object, parsed) at h)
  ]

  -- An event that is appended, and the one that was handed in.
  pub record Recorded (new_id : Option String) (now : ℕ) (event prepared : Event) : Type 0 where
    pub registered : is_registered event.event_type ≡ true
    pub traceable : (not (event.operation_id == "")) ≡ true
    pub id : new_id ≡ some prepared.id
    pub created_at : prepared.created_at ≡ now
    pub resource : Hidden event.resource prepared.resource
    pub resolved_scope : Hidden event.resolved_scope prepared.resolved_scope
    pub metadata : redact_metadata letters json event.metadata ≡ ok prepared.metadata
    pub same : prepared ≡ (record event {
      id = prepared.id;
      created_at = prepared.created_at;
      resource = prepared.resource;
      resolved_scope = prepared.resolved_scope;
      metadata = prepared.metadata;
    })

  drawn-ok :
      (new_id : Option String) (id : String)
      → (elim new_id as (λ x. Result String) [ none ↦ err internal | some i ↦ ok i ]) ≡ ok id
      → new_id ≡ some id
  drawn-ok none id h = ground arith
  drawn-ok (some i) id h = ground (arith, h)

  checked-Recorded :
      (new_id : Option String) (now : ℕ) (event prepared : Event)
      → checked letters json new_id now event ≡ ok prepared
      → Recorded new_id now event prepared
  unfolding checked prepare
  checked-Recorded new_id now event prepared h =
      let (registered, h1) = ensure-ok _ _ _ prepared h in
      let (traceable, h2) = ensure-ok _ _ _ prepared h1 in
      let (id, drew, h3) = bind-ok _ _ prepared h2 in
      let (resource, hid, h4) = bind-ok _ _ prepared h3 in
      let (resolved_scope, hid_too, h5) = bind-ok _ _ prepared h4 in
      let (metadata, flat, h6) = bind-ok _ _ prepared h5 in
      let whole : made event id now resource resolved_scope metadata ≡ prepared =
        ground (arith, h6) in
      subst (Recorded new_id now event) whole (record {
        registered = registered;
        traceable = traceable;
        id = drawn-ok new_id id drew;
        created_at = refl;
        resource = redact_json_object-Hidden event.resource resource hid;
        resolved_scope = redact_json_object-Hidden event.resolved_scope resolved_scope hid_too;
        metadata = flat;
        same = refl;
      })

  -- What Record hands to the repository comes from the event with a registered type and an operation,
  -- has the key and the time of the gateway, the resource and the scope as the redacted forms of JSON
  -- objects, the metadata redacted, and all else unchanged; and Record returns what the repository
  -- returns for it.
  pub record_event-Recorded :
      (append : Event → Result Event) (new_id : Option String) (now : ℕ) (event prepared : Event)
      → (record_event letters json append new_id now event).0 ≡ some prepared
      → Recorded new_id now event prepared
        × ((record_event letters json append new_id now event).1 ≡ append prepared)
  unfolding record_event
  record_event-Recorded append new_id now event prepared h =
      elim (Result-cases (checked letters json new_id now event)) [
        | inl (e, ran) ↦
            let same : e ≡ prepared = ground (arith, h, ran) in
            (
              subst (Recorded new_id now event) same (checked-Recorded new_id now event e ran),
              rw (ran, record_event) (ap append same),
            )
        | inr (code, ran) ↦ contradiction (ground (arith, h, ran))
      ]
