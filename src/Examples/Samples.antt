-- ===== src/Examples/Samples.antt =====
-- Concrete inputs: one agent that reads and writes a calendar through one identity.
use open_delo.Prelude.{
  ℕ, ◌+◌, ◌==◌, none, some, Bool, true, false, ◌&&◌, [], ◌∷◌, map, leb, if◌then◌else◌,
}
use open_delo.Prelude.Int.{pos}
use open_delo.Prelude.Text.{codes, same_codes, Letters}
use open_delo.Risk.Level.{Level, RiskLabel, TrustLevel, DeviceTrust}
use open_delo.Risk.Factors.{Factors}
use open_delo.Risk.Engine.{Assessment, declared_label, read_only}
use open_delo.Matcher.Identity.{
  Identity, healthy, production, Binding, workspace, workspace_binding,
}
use open_delo.Matcher.Matching.{Request, Inputs, MatchResult}
use open_delo.Scope.Dimensions.{Scope}
use open_delo.Intent.Structured.{Intent}
use open_delo.Intent.Catalog as Tools
use open_delo.Intent.Catalog.{Capability}
use open_delo.Intent.Resolver.{Call, Patterns}
use open_delo.Scope.Resolver.{ScopeInput, ScopeResult}
use open_delo.Decision.FailClosed.{balanced, Grant, ActiveLease, Input}

-- Upper case, lower case and folding of ASCII letters.
abbrev pub upper : ℕ → Bool
upper c = leb 65 c && leb c 90

abbrev pub lower : ℕ → ℕ
lower c = if upper c then c + 32 else c

abbrev pub ascii : Letters
ascii = record {
  to_lower = lower;
  is_upper = upper;
  equal_fold = λ a b. same_codes (map lower (codes a)) (map lower (codes b));
}

abbrev pub work : Identity
work = record {
  id = "id-work";
  service = "calendar";
  account_label = "work";
  environment = production;
  is_default = true;
  status = healthy;
  credential_reference_id = "cred-1";
  created_at = 10;
  updated_at = 10;
}

abbrev pub home : Identity
home = record work { id = "id-home"; account_label = "home"; is_default = false }

abbrev pub read_request : Request
read_request = record { service = "calendar"; workspace_id = "ws"; resource_key = "primary" }

abbrev pub work_binding : Binding
work_binding = record {
  id = "b-1";
  kind = workspace;
  service = "calendar";
  workspace_id = "ws";
  resource_key = "";
  identity_id = "id-work";
  created_at = 11;
}

abbrev pub bound_inputs : Inputs
bound_inputs = record {
  workspace_bindings = work_binding ∷ [];
  resource_bindings = [];
  memory_identity_ids = [];
  identities = work ∷ home ∷ [];
  manual_selection = "";
}

abbrev pub work_match : MatchResult
work_match = record {
  identity = work;
  level = workspace_binding;
  ambiguous = false;
  candidates = [];
  needs_review = false;
}

abbrev pub read_intent : Intent
read_intent = record {
  service = "calendar";
  operation = "events.list";
  resource = ("calendar", "primary") ∷ [];
  resource_key = "primary";
  ignored_fields = "note" ∷ "allScopes" ∷ [];
  environment = production;
  environment_assumed = false;
  desired_change = "";
  reversible = true;
  sensitive_data = false;
  idempotent = true;
  risk_label = RiskLabel.low;
  resource_ambiguous = false;
}

abbrev pub read_input : ScopeInput
read_input = record {
  intent = read_intent;
  agent_id = "agent";
  workspace_id = "ws";
  identity = work;
  duration = pos 0;
  request_limit = pos 0;
}

abbrev pub read_scope : Scope
read_scope = record {
  agent_id = "agent";
  workspace_id = "ws";
  service = "calendar";
  identity_id = "id-work";
  account = "work";
  resource = ("calendar", "primary") ∷ [];
  resource_key = "primary";
  operation = "events.list";
  not_before = 100;
  expires_at = 900_000_000_100;
  request_limit = pos 1;
  environment = production;
  risk_ceiling = Level.low;
}

abbrev pub read_result : ScopeResult
read_result = record {
  scope = read_scope;
  injection = "allScopes" ∷ [];
  ignored_fields = "allScopes" ∷ "note" ∷ [];
  ambiguous = false;
  environment_assumed = false;
}

abbrev pub read_factors : Factors
read_factors = record {
  write = false;
  production = false;
  reversible = true;
  resource_count = pos 1;
  destructive = false;
  permission_change = false;
  secret_access = false;
  billing = false;
  external_communication = false;
  first_seen = false;
  beyond_history = false;
  agent_trust = TrustLevel.known;
  device_trust = DeviceTrust.trusted;
  declared_label = RiskLabel.low;
}

abbrev pub low_assessment : Assessment
low_assessment = record { level = Level.low; factors = declared_label ∷ read_only ∷ [] }

abbrev pub read_decision : Input
read_decision = record {
  mode = balanced;
  agent_id = "agent";
  agent_trust = TrustLevel.known;
  write = false;
  matched = work_match;
  scope = read_result;
  assessment = low_assessment;
  read_only_auto_allow = true;
  new_service = false;
  identity_changed = false;
  new_identity = false;
  new_resource = false;
  learned = [];
  active = [];
  blockers = [];
}

abbrev pub read_lease : ActiveLease
read_lease = record { lease_id = "lease-1"; scope = read_scope }

abbrev pub asking_grant : Grant
asking_grant = record { memory_id = "memory-1"; scope = read_scope; always_ask = true }

abbrev pub list_events : Capability
list_events = record {
  tool = "calendar_list";
  operation = "events.list";
  method = "GET";
  path = "/calendars/{calendar}/events";
  risk = RiskLabel.low;
  idempotent = some true;
  reversible = some true;
  sensitive_data = some false;
  resource_keys = "calendar" ∷ [];
}

-- A codec of two texts.
abbrev pub tool_codec : Tools.Codec
tool_codec = record {
  capabilities = λ s. if s == "tools" then some (list_events ∷ []) else none;
  fields = λ s.
      if s == "primary"
      then some (("calendar", Tools.text "primary") ∷ ("note", Tools.text "hello") ∷ [])
      else none;
  is_blank = λ s. s == "";
  to_upper = λ s. s;
  glob = λ pattern value. some (pattern == value);
}

abbrev pub calendar : Tools.Declaration
calendar = record { service = "calendar"; capabilities = "tools"; enabled = true }

abbrev pub list_entry : Tools.Entry
list_entry = record {
  service = "calendar";
  capability = list_events;
  segments = "calendars" ∷ "{calendar}" ∷ "events" ∷ [];
}

abbrev pub offered_catalog : Tools.Catalog
offered_catalog = record {
  by_tool = ("calendar_list", list_entry) ∷ [];
  by_operation = ("calendar\0events.list", list_entry) ∷ [];
  by_route = list_entry ∷ [];
}

abbrev pub read_call : Call
read_call = record {
  tool = "calendar_list";
  method = "";
  path = "";
  resource = "primary";
  desired_change = "";
  identity_environment = production;
}

abbrev pub no_patterns : Patterns
no_patterns = record { production = []; non_production = [] }
