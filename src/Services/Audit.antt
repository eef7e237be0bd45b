-- ===== src/Services/Audit.antt =====
-- app/services/audit_service.py: the append-only audit log. Of a JSON column, the value is kept that
-- its text holds; `now` and the trace id of `uuid.uuid4` are arguments.
pub mod Growth
use contextql_server.Prelude.{
  ℕ, ◌+◌, String, Bool, true, ◌&&◌, Option, none, some, List, [], ◌∷◌, ◌++◌, leb, sorted, filter,
  take, drop, or_else, opt_eq,
}

-- What the services put into the detail of an event.
pub data Field : Type 0 where
  text : String → Field
  flag : Bool → Field
  number : ℕ → Field
  null : Field

pub record AuditRow : Type 0 where
  pub id : ℕ
  pub timestamp : ℕ
  pub event_type : String
  pub actor : String
  pub namespace : String
  pub resource_type : Option String
  pub resource_name : Option String
  pub detail : Option (List (String × Field))
  pub trace_id : String

-- The table `audit_log`, and the last id that AUTOINCREMENT has given.
pub record AuditLog : Type 0 where
  pub rows : List AuditRow
  pub last_id : ℕ

-- The arguments of `log`.
pub record Event : Type 0 where
  pub event_type : String
  pub resource_type : Option String
  pub resource_name : Option String
  pub detail : Option (List (String × Field))
  pub actor : String
  pub namespace : String
  pub trace_id : Option String

-- An event with the defaults of `log`.
abbrev pub event : String → String → String → String → Option (List (String × Field)) → Event
event event_type resource_type resource_name namespace detail = record {
  event_type = event_type;
  resource_type = some resource_type;
  resource_name = some resource_name;
  detail = detail;
  actor = "system";
  namespace = namespace;
  trace_id = none;
}

abbrev pub audit_row : Event → ℕ → String → ℕ → AuditRow
audit_row e now fresh_id id = record {
  id = id;
  timestamp = now;
  event_type = e.event_type;
  actor = e.actor;
  namespace = e.namespace;
  resource_type = e.resource_type;
  resource_name = e.resource_name;
  detail = e.detail;
  trace_id = or_else e.trace_id fresh_id;
}

-- `log`: the id of the new row, and the log
unfoldable pub log : Event → ℕ → String → AuditLog → ℕ × AuditLog
log e now fresh_id l =
    let id = l.last_id + 1 in
    (id, record { rows = l.rows ++ audit_row e now fresh_id id ∷ []; last_id = id })

-- The filters of `query`.
pub record AuditFilter : Type 0 where
  pub event_type : Option String
  pub namespace : Option String
  pub resource_type : Option String
  pub resource_name : Option String

-- `column = ?`, where the filter is given; a column that is NULL equals nothing
abbrev pub wanted : Option String → Option String → Bool
wanted none column = true
wanted (some value) column = opt_eq column (some value)

abbrev pub matches : AuditFilter → AuditRow → Bool
matches f r =
    wanted f.event_type (some r.event_type)
    && (wanted f.namespace (some r.namespace)
        && (wanted f.resource_type r.resource_type && wanted f.resource_name r.resource_name))

abbrev pub newer : AuditRow → AuditRow → Bool
newer a b = leb b.id a.id

-- `query`: `ORDER BY id DESC LIMIT ? OFFSET ?`
unfoldable pub query : AuditFilter → ℕ → ℕ → AuditLog → List AuditRow
query f limit offset l = take limit (drop offset (sorted newer (filter (matches f) l.rows)))
