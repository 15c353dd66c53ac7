-- ===== src/Examples/Intents.antt =====
-- Runs of internal/core/intent on concrete inputs.
use open_delo.Prelude.{◌≡◌, refl, ◌≢◌, true, false, some, [], ◌∷◌}
use open_delo.Prelude.Sorting.{insert_string, sort_strings, join, ◌+++◌}
use open_delo.Platform.AppError.{ok, err, internal}
use open_delo.Risk.Level.{RiskLabel}
use open_delo.Risk.Factors.{valid_label}
use open_delo.Matcher.Identity.{production}
use open_delo.Scope.Dimensions.{mentions_wild, value_of, valid_environment}
use open_delo.Intent.Structured.{Intent, key_part, resource_key_of, validate}
use open_delo.Intent.Catalog as Tools
use open_delo.Intent.Catalog.{
  Capability, Codec, Declaration, Entry, Catalog, new_catalog, add_declarations, parse_capabilities,
  validate_all, add_capabilities, add_entry, entry_of, split_path, pieces, operation_key, look_up,
  lookup_tool, lookup_route,
}
use open_delo.Intent.Resolver.{
  field_of, field_text, put_field, collect, ignored_keys, flags, extract_resource,
  resolve_environment, lookup, intent_of, resolve,
}
use open_delo.Intent.Results.{IsFaithful, resolve-IsFaithful}
use open_delo.Intent.Panics.{resolve_no_panic}
use open_delo.Intent.Keys.{two_fields, resource_key_of_confuses}
use open_delo.Examples.Samples.{tool_codec, calendar, read_call, offered_catalog, no_patterns}

-- The catalog of one enabled adapter.
catalog_built : new_catalog tool_codec (calendar ∷ []) ≡ ok offered_catalog
unfolding new_catalog add_declarations parse_capabilities validate_all Tools.validate
    add_capabilities add_entry entry_of split_path pieces operation_key look_up valid_label
catalog_built = refl

-- A read of the primary calendar.
abbrev read_parsed : Intent
read_parsed = record {
  service = "calendar";
  operation = "events.list";
  resource = ("calendar", "primary") ∷ [];
  resource_key = "calendar=primary";
  ignored_fields = "note" ∷ [];
  environment = production;
  environment_assumed = false;
  desired_change = "";
  reversible = true;
  sensitive_data = false;
  idempotent = true;
  risk_label = RiskLabel.low;
  resource_ambiguous = false;
}

read_resolved : resolve tool_codec no_patterns (some offered_catalog) read_call ≡ ok read_parsed
unfolding resolve lookup lookup_tool look_up extract_resource collect field_text field_of put_field
    ignored_keys flags intent_of resolve_environment resource_key_of key_part join sort_strings
    insert_string value_of mentions_wild validate valid_environment valid_label
read_resolved = refl

resolve-IsFaithful_example : IsFaithful tool_codec offered_catalog read_call read_parsed
resolve-IsFaithful_example =
    resolve-IsFaithful tool_codec no_patterns offered_catalog read_call read_parsed read_resolved

resolve_no_panic_example :
    resolve tool_codec no_patterns (some offered_catalog) read_call ≢ err internal
resolve_no_panic_example =
    resolve_no_panic tool_codec (calendar ∷ []) offered_catalog no_patterns read_call catalog_built

resource_key_of_confuses_example :
    resource_key_of (two_fields "owner" ("a" +++ ";" +++ "repo" +++ "=" +++ "b") "repo" "c")
    ≡ resource_key_of (two_fields "owner" "a" "repo" ("b" +++ ";" +++ "repo" +++ "=" +++ "c"))
resource_key_of_confuses_example = resource_key_of_confuses "owner" "repo" "a" "b" "c" refl refl
