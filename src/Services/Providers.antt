-- ===== src/Services/Providers.antt =====
-- app/services/provider_service.py: the provider registry over the table `providers`; the column `id`
-- is left out. The time and the trace id of a call are its `Moment`.
pub mod Lookups
pub mod Rows
use Prim.Native.String.{compare}
use Prim.Native.Nat.{Ordering}
use contextql_server.Prelude.{
  ℕ, String, Bool, true, false, ◌&&◌, Option, none, some, List, [], ◌∷◌, filter, length, take, drop,
  sorted, or_else, if◌then◌else◌, is_some, ◌||◌,
}
use contextql_server.Errors.{value_error, Result, ok, err}
use contextql_server.Errors.Exec.{Exec}
use contextql_server.Services.Audit.{AuditLog, Event, Field, text, flag, event, log, wanted}
use contextql_server.Services.Table.{Keys, find_at, insert_row, update_row}

pub record Provider : Type 0 where
  pub name : String
  pub namespace : String
  pub provider_type : String
  pub endpoint : Option String
  pub credentials_ref : Option String
  pub timeout_ms : Option ℕ
  pub health_state : String
  pub entity_key_type : Option String
  pub resource_shape : Option String
  pub trust_tier : Option String
  pub enabled : Bool
  pub registered_at : ℕ
  pub updated_at : ℕ
  pub last_success_at : Option ℕ
  pub last_failure_at : Option ℕ

abbrev pub keys : Keys Provider
keys = record { name_of = λ p. p.name; namespace_of = λ p. p.namespace }

pub record Moment : Type 0 where
  pub now : ℕ
  pub trace_id : String

-- The two attributes of the service; `audit` may be missing.
pub record Registry : Type 0 where
  pub providers : List Provider
  pub audit : Option AuditLog

abbrev pub audited : Event → Moment → Option AuditLog → Option AuditLog
audited e t none = none
audited e t (some l) = some (log e t.now t.trace_id l).1

-- `_audit_log`
abbrev pub audit_log :
    String → String → String → Option (List (String × Field)) → Moment → Registry → Registry
audit_log event_type name namespace detail t s = record s {
  audit = audited (event event_type "provider" name namespace detail) t s.audit;
}

unfoldable pub get : String → String → Registry → Option Provider
get name namespace s = find_at keys name namespace s.providers

-- The arguments of `register`.
pub record ProviderArgs : Type 0 where
  pub name : String
  pub provider_type : String
  pub namespace : String
  pub endpoint : Option String
  pub timeout_ms : ℕ
  pub entity_key_type : Option String
  pub trust_tier : String

-- The row of an INSERT, with the defaults of the table.
abbrev pub new_provider : ProviderArgs → ℕ → Provider
new_provider a now = record {
  name = a.name;
  namespace = a.namespace;
  provider_type = a.provider_type;
  endpoint = a.endpoint;
  credentials_ref = none;
  timeout_ms = some a.timeout_ms;
  health_state = "unknown";
  entity_key_type = a.entity_key_type;
  resource_shape = none;
  trust_tier = some a.trust_tier;
  enabled = true;
  registered_at = now;
  updated_at = now;
  last_success_at = none;
  last_failure_at = none;
}

-- what follows the INSERT: the audit row, and the row read back
registered :
    ProviderArgs → Moment → Registry → Result (List Provider) → Result (Option Provider) × Registry
unfolding get
registered a t s (err e) = (err e, s)
registered a t s (ok rows) =
    let s' =
      audit_log "provider.registered" a.name a.namespace none t (record s { providers = rows }) in
    (ok (get a.name a.namespace s'), s')

unfoldable pub register : ProviderArgs → Moment → Exec Registry (Option Provider)
unfolding registered
register a t s = registered a t s (insert_row keys (new_provider a t.now) s.providers)

-- A row that is there is changed, audited and read back; a row that is not there is an error.
changed :
    String
    → String
    → String
    → Option (List (String × Field))
    → (Provider → Provider)
    → Moment
    → Option Provider
    → Registry
    → Result (Option Provider) × Registry
unfolding get
changed name namespace event_type detail f t none s = (err (value_error "not found"), s)
changed name namespace event_type detail f t (some current) s =
    let s' =
      audit_log event_type name namespace detail t
        (record s { providers = update_row keys name namespace f s.providers }) in
    (ok (get name namespace s'), s')

-- The keyword arguments of `update`: a field that is given may be given as None.
pub record Updates : Type 0 where
  pub endpoint : Option (Option String)
  pub timeout_ms : Option (Option ℕ)
  pub entity_key_type : Option (Option String)
  pub trust_tier : Option (Option String)
  pub credentials_ref : Option (Option String)
  pub resource_shape : Option (Option String)

abbrev pub gives_any : Updates → Bool
gives_any u =
    is_some u.endpoint
    || (is_some u.timeout_ms
        || (is_some u.entity_key_type
            || (is_some u.trust_tier || (is_some u.credentials_ref || is_some u.resource_shape))))

abbrev pub updated : Updates → ℕ → Provider → Provider
updated u now p = record p {
  endpoint = or_else u.endpoint p.endpoint;
  timeout_ms = or_else u.timeout_ms p.timeout_ms;
  entity_key_type = or_else u.entity_key_type p.entity_key_type;
  trust_tier = or_else u.trust_tier p.trust_tier;
  credentials_ref = or_else u.credentials_ref p.credentials_ref;
  resource_shape = or_else u.resource_shape p.resource_shape;
  updated_at = now;
}

-- `if not sets: return current`
unchanged : Option Provider → Registry → Result (Option Provider) × Registry
unchanged none s = (err (value_error "not found"), s)
unchanged (some current) s = (ok (some current), s)

unfoldable pub update : String → String → Updates → Moment → Exec Registry (Option Provider)
unfolding changed unchanged get
update name namespace u t s =
    if gives_any u
    then changed name namespace "provider.updated" none (updated u t.now) t (get name namespace s) s
    else unchanged (get name namespace s) s

-- `_set_enabled`, which `enable` and `disable` call
unfoldable pub set_enabled : String → String → Bool → Moment → Exec Registry (Option Provider)
unfolding changed get
set_enabled name namespace enabled t s =
    changed name namespace (if enabled then "provider.enabled" else "provider.disabled") none
      (λ p. record p { enabled = enabled; updated_at = t.now }) t (get name namespace s) s

abbrev pub health : Bool → ℕ → Provider → Provider
health true now p = record p {
  health_state = "healthy";
  last_success_at = some now;
  updated_at = now;
}
health false now p = record p {
  health_state = "unhealthy";
  last_failure_at = some now;
  updated_at = now;
}

abbrev pub health_detail : Bool → List (String × Field)
health_detail success =
    ("success", flag success)
    ∷ ("health_state", text (if success then "healthy" else "unhealthy"))
    ∷ []

unfoldable pub record_health : String → String → Bool → Moment → Exec Registry (Option Provider)
unfolding changed get
record_health name namespace success t s =
    changed name namespace "provider.health_recorded" (some (health_detail success))
      (health success t.now) t (get name namespace s) s

abbrev pub str_leb : String → String → Bool
str_leb a b = elim (compare a b) [ Ordering.gt ↦ false | _ ↦ true ]

abbrev pub listed : Option String → Option String → Provider → Bool
listed namespace provider_type p =
    wanted namespace (some p.namespace) && wanted provider_type (some p.provider_type)

-- `list`: the rows `ORDER BY name LIMIT ? OFFSET ?`, and the number of all that match
unfoldable pub list_providers : Option String → Option String → ℕ → ℕ → Registry → List Provider × ℕ
list_providers namespace provider_type limit offset s =
    let rows = filter (listed namespace provider_type) s.providers in
    (take limit (drop offset (sorted (λ a b. str_leb a.name b.name) rows)), length rows)
